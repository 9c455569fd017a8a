-- ===== src/Tests/Gateways.antt =====
-- The circuit breaker's theorems, on one that opens at two failures, for 1000 ns.
use challenge_senior.Prelude.{◌≡◌, refl, none, some, true, false, [], ◌∷◌, arith}
use challenge_senior.Kit.Errors.{sentinel, timeout, client}
use challenge_senior.Kit.Gateway.{
  Config, Breaker, closed, open_circuit, new_config, new_breaker, before_call, after_call,
  default_is_failure,
}
use challenge_senior.Kit.Gateway.Circuit.{
  IsConsistent, run, before, after, new_config-IsSane, run-IsConsistent, run_failures,
  run_failures_trips, stale_call_admits_second_probe,
}

abbrev cfg : Config
cfg = record {
  failure_threshold = 2;
  success_threshold = 1;
  open_timeout = 1_000;
  is_failure = default_is_failure;
}

abbrev fresh : Breaker
fresh = record {
  state = closed;
  failures = 0;
  successes = 0;
  opened_at = 0;
  half_in_flight = false;
}

-- It opened at 100.
abbrev opened : Breaker
opened = record fresh { state = open_circuit; failures = 2; opened_at = 100 }

run-IsConsistent_example : IsConsistent (new_config 2 1 1_000 none) (
    run
      (new_config 2 1 1_000 none)
      (before 1 ∷ before 2 ∷ after 3 (some (sentinel timeout)) ∷ after 4 none ∷ [])
      new_breaker)
run-IsConsistent_example =
    run-IsConsistent (new_config 2 1 1_000 none)
      (before 1 ∷ before 2 ∷ after 3 (some (sentinel timeout)) ∷ after 4 none ∷ [])
      (new_config-IsSane 2 1 1_000 none)

timeouts_fail : default_is_failure (sentinel timeout) ≡ true
unfolding default_is_failure
timeouts_fail = refl

run_failures_trips_example :
    let b =
      run_failures cfg
        (sentinel timeout)
        (9 ∷ [])
        (run_failures cfg (sentinel timeout) (4 ∷ []) fresh) in
    (b.state ≡ open_circuit) × (b.opened_at ≡ 9)
run_failures_trips_example =
    run_failures_trips cfg (sentinel timeout) (4 ∷ []) 9 fresh timeouts_fail refl refl

stale_call_admits_second_probe_example :
    let probing =
      run cfg
        (before 1 ∷ before 1 ∷ after 100 (some (sentinel timeout)) ∷ before 1_200 ∷ [])
        (record fresh { failures = 1 }) in
    (probing.half_in_flight ≡ true)
    × ((before_call cfg 1_400 (after_call cfg 1_300 (some (sentinel client)) probing)).0 ≡ none)
unfolding default_is_failure
stale_call_admits_second_probe_example =
    stale_call_admits_second_probe cfg (record fresh { failures = 1 }) (sentinel timeout)
      (sentinel client) 1 100 1_200 1_300 1_400 refl refl refl refl (omega arith)
