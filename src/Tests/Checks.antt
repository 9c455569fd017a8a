-- ===== src/Tests/Checks.antt =====
-- The health service on two checks, one of which fails, and on the two checks of
-- cmd/web/main.go with a circuit that has been open for two seconds.
use challenge_senior.Prelude.{false, none, some, [], ◌∷◌, ◌≡◌, arith}
use challenge_senior.Kit.Errors.{sentinel, timeout}
use challenge_senior.Kit.Context.{background}
use challenge_senior.Health.{Health, check}
use challenge_senior.Health.Answers.{all_pass, check-check}
use challenge_senior.Prelude.{◌+◌, ◌*◌, if◌then◌else◌, refl}
use challenge_senior.Kit.Action.{ok, err}
use challenge_senior.Kit.Errors.{circuit_open}
use challenge_senior.Kit.Context.{millisecond}
use challenge_senior.Kit.Gateway.{Breaker, open_circuit}
use challenge_senior.Kit.MockClient.{Client}
use challenge_senior.System.Checks.{
  db_check, gateway_check, web_gateway, web_checks, admits, healed, check-admits,
}

abbrev two : Health
two = record {
  checks = ("db", some (λ ctx. none)) ∷ ("gateway", some (λ ctx. some (sentinel timeout))) ∷ [];
  ttl = 100;
  next_check_at = 50;
  last_result = record { at = 0; ok = false; checks = [] };
}

check-check_example :
    let (a, h) = check 50 51 52 background two in
    (a.ok ≡ all_pass background two.checks) × (check 151 151 152 background h ≡ (a, h))
check-check_example =
    check-check 50 51 52 151 151 152 background background two (omega arith) (omega arith)

abbrev empty : Client (Unit {0})
empty = record { wallets = []; payments = []; wallets_persist_path = ""; world = tt }

abbrev tripped : Breaker
tripped = record {
  state = open_circuit;
  failures = 3;
  successes = 0;
  opened_at = 7;
  half_in_flight = false;
}

abbrev web : Health
web = record {
  checks = web_checks empty ((tt {0}, tripped), 2_000_000_007);
  ttl = 2000 * millisecond;
  next_check_at = 0;
  last_result = record { at = 0; ok = false; checks = [] };
}

check-admits_example :
    ((check 5 6 7 background web).0.ok ≡ admits 2_000_000_007 tripped)
    × (db_check empty ≡ (ok tt, empty))
    × (gateway_check web_gateway background ((tt {0}, tripped), 2_000_000_007) ≡ (
        if admits 2_000_000_007 tripped
        then (ok tt, ((tt, healed tripped), 2_000_000_007 + 50 * millisecond))
        else (err (sentinel circuit_open), ((tt, tripped), 2_000_000_007))))
check-admits_example =
    check-admits background empty tt tripped 2_000_000_007 5 6 7 web refl refl refl (omega arith)
