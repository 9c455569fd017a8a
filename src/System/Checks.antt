-- ===== src/System/Checks.antt =====
-- The two checks that cmd/web/main.go gives to the health: of the wallets' database, and of the
-- gateway behind its circuit breaker.
use challenge_senior.Prelude.{
  ℕ, ◌+◌, ◌-◌, ◌*◌, ◌≤◌, Bool, true, false, ◌&&◌, ◌≡◌, ◌∙◌, inl, inr, Bool-cases, ap, sym, Option,
  none, some, List, [], ◌∷◌, if◌then◌else◌, leb, not, arith,
}
use challenge_senior.Prelude.Int.{pos}
use challenge_senior.Prelude.GoMap.{GoMap}
use challenge_senior.Kit.Errors.{Error, sentinel, circuit_open, is_not_found}
use challenge_senior.Kit.Action.{Result, ok, err, panic, Action, give, ◌>>=◌}
use challenge_senior.Kit.Context.{Context, background, millisecond, with_timeout, wait}
use challenge_senior.Kit.MockClient.{Value, str, Client, int64_ptr, scan}
use challenge_senior.Kit.MockClient.Exec.{query_row, query_wallet}
use challenge_senior.Kit.Gateway.{
  Gateway, Config, Breaker, closed, open_circuit, half_open, new_config, fake_charge, fake_gateway,
  breaker_gateway, breaker_charge, before_call, after_call,
}
use challenge_senior.Health.{CheckFunc, Health, check}
use challenge_senior.Health.Answers.{passes, all_pass, answers}

-- What the check of the database makes of the scanned row.
abbrev pub found : Result (List Value) → Result (Unit {0})
found (ok _) = ok tt
found (err e) = if is_not_found e then ok tt else err e
found panic = panic

unfoldable pub db_check : {W : Type 0} → Action (Client W) (Unit {0})
unfolding query_row scan is_not_found
db_check = do
  row ← query_row "SELECT balance FROM wallets WHERE user_id = ?" (str "__healthcheck__" ∷ [])
  give (found (scan row (int64_ptr ∷ [])))

abbrev pub done : {A : Type 0} → Result A → Result (Unit {0})
done (ok _) = ok tt
done (err e) = err e
done panic = panic

unfoldable pub gateway_check :
    {S : Type 0} → Gateway S → Context → S × ℕ → Result (Unit {0}) × (S × ℕ)
unfolding with_timeout
gateway_check gateway ctx (s, now) =
    let (r, s') =
      gateway.charge (with_timeout ctx (100 * millisecond) now) "__healthcheck__" (pos 1)
        (s, now) in
    (done r, s')

-- The gateway that `main` makes.
abbrev pub web_breaker : Config
web_breaker = new_config 3 1 (2000 * millisecond) none

abbrev pub web_gateway : {S : Type 0} → Gateway (S × Breaker)
web_gateway = breaker_gateway fake_gateway web_breaker

-- The error that a check returns; that none of the two panics is part of what is proved of them.
abbrev pub returned : {A : Type 0} → Result A → Option Error
returned (err e) = some e
returned _ = none

abbrev pub web_checks : {S W : Type 0} → Client W → (S × Breaker) × ℕ → GoMap (Option CheckFunc)
web_checks c s =
    ("db", some (λ ctx. returned (db_check c).0))
    ∷ ("gateway", some (λ ctx. returned (gateway_check web_gateway ctx s).0))
    ∷ []

-- Whether the circuit lets a call through.
abbrev pub admits : ℕ → Breaker → Bool
admits now b = elim b.state [
  | closed ↦ true
  | open_circuit ↦ leb (2000 * millisecond) (now - b.opened_at)
  | half_open ↦ not b.half_in_flight
]

db_check_ok : {W : Type 0} (c : Client W) → db_check c ≡ (ok tt, c)
unfolding db_check query_wallet
db_check_ok c = ground arith

-- A charge of 1 by the fake gateway is done before the check's deadline.
fake_in_time :
    {S : Type 0} (ctx : Context) (s : S) (now : ℕ)
    → ctx.failure ≡ none
    → ctx.deadline ≡ none
    → fake_charge (with_timeout ctx (100 * millisecond) now) "__healthcheck__" (pos 1) (s, now)
      ≡ (ok "gw___healthcheck__", (s, now + 50 * millisecond))
unfolding fake_charge wait with_timeout
fake_in_time ctx s now live free = rw (live, free) (ground arith)

-- The breaker that a call leaves which it let through and which succeeded.
abbrev pub healed : Breaker → Breaker
healed b = elim b.state [
  | closed ↦ record b { failures = 0 }
  | _ ↦ record b { state = closed; failures = 0; successes = 0; half_in_flight = false }
]

let_through :
    {S : Type 0} (ctx : Context) (s : S) (b : Breaker) (now : ℕ)
    → ctx.failure ≡ none
    → ctx.deadline ≡ none
    → admits now b ≡ true
    → gateway_check web_gateway ctx ((s, b), now) ≡ (ok tt, ((s, healed b), now + 50 * millisecond))
unfolding gateway_check breaker_charge before_call after_call new_config
let_through ctx s b now live free admitted = ground (arith, fake_in_time ctx s now live free)

kept_out :
    {S : Type 0} (ctx : Context) (s : S) (b : Breaker) (now : ℕ)
    → admits now b ≡ false
    → gateway_check web_gateway ctx ((s, b), now) ≡ (err (sentinel circuit_open), ((s, b), now))
unfolding gateway_check breaker_charge before_call new_config
kept_out ctx s b now shut = ground arith

gateway_checked :
    {S : Type 0} (ctx : Context) (s : S) (b : Breaker) (now : ℕ)
    → ctx.failure ≡ none
    → ctx.deadline ≡ none
    → gateway_check web_gateway ctx ((s, b), now) ≡ (
        if admits now b
        then (ok tt, ((s, healed b), now + 50 * millisecond))
        else (err (sentinel circuit_open), ((s, b), now)))
gateway_checked ctx s b now live free = elim (Bool-cases (admits now b)) [
  | inl admitted ↦ rw admitted (let_through ctx s b now live free admitted)
  | inr shut ↦ rw shut (kept_out ctx s b now shut)
]

abbrev passes_both : Result (Unit {0}) → Result (Unit {0}) → Bool
passes_both db gateway =
    passes background (some (λ ctx. returned db))
    && (passes background (some (λ ctx. returned gateway)) && true)

all_checks :
    {S W : Type 0} (ctx : Context) (c : Client W) (s : S) (b : Breaker) (t : ℕ)
    → ctx.failure ≡ none
    → ctx.deadline ≡ none
    → all_pass ctx (web_checks c ((s, b), t)) ≡ admits t b
all_checks ctx c s b t live free =
    ap (λ d. passes_both d.0 (gateway_check web_gateway ctx ((s, b), t)).0) (db_check_ok c)
    ∙ elim (Bool-cases (admits t b)) [
      | inl admitted ↦
          ap (λ g. passes_both (ok tt) g.0) (let_through ctx s b t live free admitted)
          ∙ sym admitted
      | inr shut ↦ ap (λ g. passes_both (ok tt) g.0) (kept_out ctx s b t shut) ∙ sym shut
    ]

-- On a context that is not done and has no deadline, and when the last answer is no longer
-- kept, the health with the two checks of `main` answers whether the circuit breaker lets a
-- call through. The database's check passes whatever the wallets are, and changes nothing. The
-- gateway's check, where the circuit lets it through, passes after 50 ms and leaves the circuit
-- closed with no failure counted; where not, it fails as an open circuit does and changes
-- nothing.
pub check-admits :
    {S W : Type 0} (ctx : Context) (c : Client W) (s : S) (b : Breaker) (t now begun finished : ℕ)
    (h : Health)
    → ctx.failure ≡ none
    → ctx.deadline ≡ none
    → h.checks ≡ web_checks c ((s, b), t)
    → h.next_check_at ≤ now
    → ((check now begun finished ctx h).0.ok ≡ admits t b)
      × (db_check c ≡ (ok tt, c))
      × (gateway_check web_gateway ctx ((s, b), t) ≡ (
          if admits t b
          then (ok tt, ((s, healed b), t + 50 * millisecond))
          else (err (sentinel circuit_open), ((s, b), t))))
check-admits ctx c s b t now begun finished h live free main late = (
  answers now begun finished ctx h late ∙ ap (all_pass ctx) main ∙ all_checks ctx c s b t live free,
  db_check_ok c,
  gateway_checked ctx s b t live free,
)
