-- ===== src/Health.antt =====
-- internal/health/service.go: checks by name, and an answer that is kept for a while. A check sees
-- its context alone; the zero time is 0.
pub mod Answers
use challenge_senior.Prelude.{
  ℕ, ◌+◌, String, Bool, true, false, Option, none, some, [], ◌∷◌, if◌then◌else◌, ltb,
}
use challenge_senior.Prelude.GoMap.{GoMap, insert}
use challenge_senior.Kit.Errors.{Error, message}
use challenge_senior.Kit.Context.{Context}

abbrev pub CheckFunc : Type 0
CheckFunc = Context → Option Error

-- `Result`
pub record Answer : Type 0 where
  pub at : ℕ
  pub ok : Bool
  pub checks : GoMap String

-- `Service`; a check may be nil.
pub record Health : Type 0 where
  pub checks : GoMap (Option CheckFunc)
  pub ttl : ℕ
  pub next_check_at : ℕ
  pub last_result : Answer

unfoldable pub new_health : ℕ → GoMap (Option CheckFunc) → Health
new_health ttl checks = record {
  checks = checks;
  ttl = ttl;
  next_check_at = 0;
  last_result = record { at = 0; ok = false; checks = [] };
}

abbrev pub fails : String → String → Answer → Answer
fails check text a = record a { ok = false; checks = insert check text a.checks }

-- The body of the loop over the checks.
unfoldable pub run_check : Context → String → Option CheckFunc → Answer → Answer
run_check ctx check none a = fails check "invalid check" a
run_check ctx check (some fn) a = elim (fn ctx) [
  | some e ↦ fails check (message e) a
  | none ↦ record a { checks = insert check "ok" a.checks }
]

unfoldable pub run_checks : Context → GoMap (Option CheckFunc) → Answer → Answer
unfolding run_check
run_checks ctx [] a = a
run_checks ctx ((check, fn) ∷ checks) a = run_checks ctx checks (run_check ctx check fn a)

-- `Check`, whose three readings of the clock are the first three arguments.
unfoldable pub check : ℕ → ℕ → ℕ → Context → Health → Answer × Health
unfolding run_checks
check now begun done ctx h =
    let a = run_checks ctx h.checks (record { at = begun; ok = true; checks = [] }) in
    if ltb now h.next_check_at
    then (h.last_result, h)
    else (a, record h { last_result = a; next_check_at = done + h.ttl })
