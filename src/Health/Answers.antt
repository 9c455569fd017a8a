-- ===== src/Health/Answers.antt =====
-- What the answers of internal/health/service.go mean, and for how long one is kept.
use challenge_senior.Prelude.{
  ℕ, ◌+◌, ◌≤◌, ◌<◌, String, Bool, true, false, ◌&&◌, ◌≡◌, ◌∙◌, Option, none, some, [], ◌∷◌, arith,
}
use challenge_senior.Prelude.GoMap.{GoMap}
use challenge_senior.Kit.Context.{Context}
use challenge_senior.Health.{CheckFunc, Answer, Health, run_check, run_checks, check}

abbrev pub passes : Context → Option CheckFunc → Bool
passes ctx none = false
passes ctx (some fn) = elim (fn ctx) [ none ↦ true | some e ↦ false ]

abbrev pub all_pass : Context → GoMap (Option CheckFunc) → Bool
all_pass ctx [] = true
all_pass ctx ((c, fn) ∷ checks) = passes ctx fn && all_pass ctx checks

run_check-ok :
    (ctx : Context) (c : String) (fn : Option CheckFunc) (a : Answer)
    → (run_check ctx c fn a).ok ≡ (a.ok && passes ctx fn)
unfolding run_check
run_check-ok ctx c none a = ground arith
run_check-ok ctx c (some fn) a = ground arith

run_checks-ok :
    (ctx : Context) (checks : GoMap (Option CheckFunc)) (a : Answer)
    → (run_checks ctx checks a).ok ≡ (a.ok && all_pass ctx checks)
unfolding run_checks
run_checks-ok ctx [] a = ground arith
run_checks-ok ctx ((c, fn) ∷ checks) a =
    run_checks-ok ctx checks (run_check ctx c fn a) ∙ ground (arith, run_check-ok ctx c fn a)

checked :
    (now begun done : ℕ) (ctx : Context) (h : Health)
    → h.next_check_at ≤ now
    → let a = run_checks ctx h.checks (record { at = begun; ok = true; checks = [] }) in
      check now begun done ctx h ≡ (a, record h { last_result = a; next_check_at = done + h.ttl })
unfolding check
checked now begun done ctx h late = ground arith

kept :
    (now begun done : ℕ) (ctx : Context) (h : Health)
    → now < h.next_check_at
    → check now begun done ctx h ≡ (h.last_result, h)
unfolding check
kept now begun done ctx h early = ground arith

pub answers :
    (now begun done : ℕ) (ctx : Context) (h : Health)
    → h.next_check_at ≤ now
    → (check now begun done ctx h).0.ok ≡ all_pass ctx h.checks
answers now begun done ctx h late =
    rw (checked now begun done ctx h late)
      (run_checks-ok ctx h.checks (record { at = begun; ok = true; checks = [] }))

-- A check that is made when the last answer is no longer kept answers whether every check
-- passes, where a nil check does not; until the time to live has gone by since then, every
-- later check gives the same answer and changes nothing, whatever the checks would say.
pub check-check :
    (now begun done now' begun' done' : ℕ) (ctx ctx' : Context) (h : Health)
    → h.next_check_at ≤ now
    → now' < done + h.ttl
    → let (a, h') = check now begun done ctx h in
      (a.ok ≡ all_pass ctx h.checks) × (check now' begun' done' ctx' h' ≡ (a, h'))
check-check now begun done now' begun' done' ctx ctx' h late early =
    let fresh : Answer = record { at = begun; ok = true; checks = [] } in
    rw (checked now begun done ctx h late) (
      run_checks-ok ctx h.checks fresh,
      kept now' begun' done' ctx'
          (record h { last_result = run_checks ctx h.checks fresh; next_check_at = done + h.ttl })
          early,
    )
