-- ===== src/Kit/Gateway/Circuit.antt =====
-- The circuit breaker of kit/external_payment_gateway/gateway.go: its counters
-- between two locked sections, when it opens, and what an open one does with calls.
use challenge_senior.Prelude.{
  ℕ, suc, Bool, ◌+◌, ◌-◌, ◌≤◌, ◌<◌, String, true, false, ◌≡◌, Option, none, some, List, [], ◌∷◌,
  length, arith,
}
use challenge_senior.Prelude.Int.{ℤ}
use challenge_senior.Kit.Errors.{Error, sentinel, circuit_open}
use challenge_senior.Kit.Action.{err}
use challenge_senior.Kit.Context.{Context}
use challenge_senior.Kit.Gateway.{
  Gateway, Config, Breaker, closed, open_circuit, half_open, new_config, new_breaker, before_call,
  after_call, breaker_charge,
}

-- `NewCircuitBreakerGateway` makes only such configurations.
pub record IsSane (cfg : Config) : Type 0 where
  pub some_failures : 0 < cfg.failure_threshold
  pub some_successes : 0 < cfg.success_threshold
  pub some_time : 0 < cfg.open_timeout

-- A closed circuit has seen fewer failures in a row than open it, a half-open one fewer successes
-- than close it, and a probe is in flight only while it is half-open.
pub record IsConsistent (cfg : Config) (b : Breaker) : Type 0 where
  pub few_failures : b.state ≡ closed → b.failures < cfg.failure_threshold
  pub few_successes : b.state ≡ half_open → b.successes < cfg.success_threshold
  pub probe_half_open : b.half_in_flight ≡ true → b.state ≡ half_open

pub new_config-IsSane :
    (failure success open_for : ℕ) (test : Option (Error → Bool))
    → IsSane (new_config failure success open_for test)
unfolding new_config
new_config-IsSane failure success open_for test = ground arith

-- The two locked sections of a call, in any interleaving of calls.
pub data Locked : Type 0 where
  before : ℕ → Locked
  after : ℕ → Option Error → Locked

pub step : Config → Locked → Breaker → Breaker
step cfg (before now) b = (before_call cfg now b).1
step cfg (after now e) b = after_call cfg now e b

pub run : Config → List Locked → Breaker → Breaker
run cfg [] b = b
run cfg (l ∷ ls) b = run cfg ls (step cfg l b)

step-IsConsistent :
    (cfg : Config) (l : Locked) (b : Breaker)
    → IsSane cfg
    → IsConsistent cfg b
    → IsConsistent cfg (step cfg l b)
unfolding step before_call after_call
step-IsConsistent cfg (before now) b sane h = ground arith
step-IsConsistent cfg (after now none) b sane h = ground arith
step-IsConsistent cfg (after now (some e)) b sane h = ground arith

run_from-IsConsistent :
    (cfg : Config) (ls : List Locked) (b : Breaker)
    → IsSane cfg
    → IsConsistent cfg b
    → IsConsistent cfg (run cfg ls b)
unfolding run
run_from-IsConsistent cfg [] b sane h = h
run_from-IsConsistent cfg (l ∷ ls) b sane h =
    run_from-IsConsistent cfg ls (step cfg l b) sane (step-IsConsistent cfg l b sane h)

-- Where the thresholds and the timeout are positive, and however the locked sections of
-- concurrent calls interleave, a circuit breaker that began new has seen fewer failures than
-- open it while it is closed and fewer successes than close it while it is half-open, and a
-- probe is in flight only while it is half-open.
pub run-IsConsistent :
    (cfg : Config) (ls : List Locked) → IsSane cfg → IsConsistent cfg (run cfg ls new_breaker)
unfolding new_breaker
run-IsConsistent cfg ls sane = run_from-IsConsistent cfg ls new_breaker sane (ground arith)

-- Calls that fail one after the other, by the times at which they end.
pub run_failures : Config → Error → List ℕ → Breaker → Breaker
run_failures cfg e [] b = b
run_failures cfg e (now ∷ ts) b =
    run_failures cfg e ts (after_call cfg now (some e) (before_call cfg now b).1)

fail_closed :
    (cfg : Config) (now : ℕ) (e : Error) (b : Breaker)
    → cfg.is_failure e ≡ true
    → b.state ≡ closed
    → suc (suc b.failures) ≤ cfg.failure_threshold
    → let b' = after_call cfg now (some e) (before_call cfg now b).1 in
      (b'.state ≡ closed) × (b'.failures ≡ suc b.failures)
unfolding before_call after_call
fail_closed cfg now e b fails c room = ground arith

fail_trips :
    (cfg : Config) (now : ℕ) (e : Error) (b : Breaker)
    → cfg.is_failure e ≡ true
    → b.state ≡ closed
    → suc b.failures ≡ cfg.failure_threshold
    → let b' = after_call cfg now (some e) (before_call cfg now b).1 in
      (b'.state ≡ open_circuit) × (b'.opened_at ≡ now)
unfolding before_call after_call
fail_trips cfg now e b fails c last = ground arith

-- A closed circuit with `failures` behind it stays closed while fewer failures in a row follow
-- than are left to the threshold.
pub run_failures_closed :
    (cfg : Config) (e : Error) (ts : List ℕ) (b : Breaker)
    → cfg.is_failure e ≡ true
    → b.state ≡ closed
    → b.failures + length ts < cfg.failure_threshold
    → ((run_failures cfg e ts b).state ≡ closed)
      × ((run_failures cfg e ts b).failures ≡ b.failures + length ts)
unfolding run_failures
run_failures_closed cfg e [] b fails c room = (c, omega arith)
run_failures_closed cfg e (now ∷ ts) b fails c room =
    let (c', n) = fail_closed cfg now e b fails c (omega arith) in
    let (c'', n') =
      run_failures_closed cfg e ts (after_call cfg now (some e) (before_call cfg now b).1) fails c'
        (omega arith) in
    (c'', omega (arith, n, n'))

-- Where calls fail one after the other on a closed circuit, the failure that brings the
-- failures in a row to the threshold opens the circuit at its time.
pub run_failures_trips :
    (cfg : Config) (e : Error) (ts : List ℕ) (last : ℕ) (b : Breaker)
    → cfg.is_failure e ≡ true
    → b.state ≡ closed
    → suc (b.failures + length ts) ≡ cfg.failure_threshold
    → let b' = run_failures cfg e (last ∷ []) (run_failures cfg e ts b) in
      (b'.state ≡ open_circuit) × (b'.opened_at ≡ last)
unfolding run_failures
run_failures_trips cfg e ts last b fails c reach =
    let (c', n) = run_failures_closed cfg e ts b fails c (omega arith) in
    fail_trips cfg last e (run_failures cfg e ts b) fails c' (omega (arith, n))

-- Until the timeout has passed, an open circuit refuses every call, and neither the gateway
-- behind it, nor the breaker, nor the time changes.
pub open_refuses :
    {S : Type 0} (next : Gateway S) (cfg : Config) (ctx : Context) (payment : String) (amount : ℤ)
    (s : S) (b : Breaker) (now : ℕ)
    → b.state ≡ open_circuit
    → now - b.opened_at < cfg.open_timeout
    → breaker_charge next cfg ctx payment amount ((s, b), now)
      ≡ (err (sentinel circuit_open), ((s, b), now))
unfolding breaker_charge
open_refuses next cfg ctx payment amount s b now o early = ground arith

-- After the timeout an open circuit lets one call through and is half-open; while that call is
-- in flight it refuses another.
pub open_probes_once :
    (cfg : Config) (b : Breaker) (now later : ℕ)
    → b.state ≡ open_circuit
    → cfg.open_timeout ≤ now - b.opened_at
    → let (e, b') = before_call cfg now b in
      (e ≡ none)
      × (b'.state ≡ half_open)
      × (before_call cfg later b' ≡ (some (sentinel circuit_open), b'))
unfolding before_call
open_probes_once cfg b now later o late = ground arith

-- A call that began while the circuit was closed with one failure left to its threshold, and
-- that ends with an error that is no failure while a probe is in flight, lets a second probe
-- through.
pub stale_call_admits_second_probe :
    (cfg : Config) (b : Breaker) (f g : Error) (t₀ t₁ t₂ t₃ t₄ : ℕ)
    → b.state ≡ closed
    → suc b.failures ≡ cfg.failure_threshold
    → cfg.is_failure f ≡ true
    → cfg.is_failure g ≡ false
    → cfg.open_timeout ≤ t₂ - t₁
    → let probing = run cfg (before t₀ ∷ before t₀ ∷ after t₁ (some f) ∷ before t₂ ∷ []) b in
      (probing.half_in_flight ≡ true)
      × ((before_call cfg t₄ (after_call cfg t₃ (some g) probing)).0 ≡ none)
unfolding run step before_call after_call
stale_call_admits_second_probe cfg b f g t₀ t₁ t₂ t₃ t₄ c last fails passes late = ground arith
