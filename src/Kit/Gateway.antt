-- ===== src/Kit/Gateway.antt =====
-- kit/external_payment_gateway/gateway.go: the fake gateway, and the circuit breaker before any
-- gateway. The clock stands in the state: waiting moves it on.
pub mod Circuit
use Prim.Native.String.{◌++◌ as text_append}
use challenge_senior.Prelude.{
  ℕ, suc, ◌+◌, ◌-◌, ◌*◌, ◌%◌, String, Bool, true, false, ◌||◌, Option, none, some, if◌then◌else◌,
  eqb, leb,
}
use challenge_senior.Prelude.Int.{ℤ, pos, negsuc}
use challenge_senior.Kit.Errors.{
  Error, sentinel, is, timeout, server, client, circuit_open, deadline_exceeded,
}
use challenge_senior.Kit.Action.{Result, ok, err, panic}
use challenge_senior.Kit.Context.{Context, millisecond, wait}

-- The `Gateway` interface: a call goes on from a state and a time, and comes back at a time.
pub record Gateway (S : Type 0) : Type 0 where
  pub charge : Context → String → ℤ → S × ℕ → Result String × (S × ℕ)

-- `amount%n == 0` for a positive n; Go's remainder has the sign of the amount.
abbrev pub divides : ℕ → ℤ → Bool
divides n (pos a) = eqb (a % n) 0
divides n (negsuc a) = eqb (suc a % n) 0

-- Wait, and return what the timer's case returns unless the context is done first.
abbrev pub outcome : {S : Type 0} → Result String → Option Error × ℕ → S → Result String × (S × ℕ)
outcome r (none, now) s = (r, (s, now))
outcome r (some e, now) s = (err e, (s, now))

unfoldable pub fake_charge : {S : Type 0} → Context → String → ℤ → S × ℕ → Result String × (S × ℕ)
unfolding wait
fake_charge ctx payment amount (s, now) =
    if divides 5 amount
    then outcome (err (sentinel timeout)) (wait ctx (300 * millisecond) now) s
    else if divides 11 amount
    then outcome (err (sentinel client)) (wait ctx (50 * millisecond) now) s
    else if divides 7 amount
    then outcome (err (sentinel server)) (wait ctx (50 * millisecond) now) s
    else outcome (ok (text_append "gw_" payment)) (wait ctx (50 * millisecond) now) s

abbrev pub fake_gateway : {S : Type 0} → Gateway S
fake_gateway = record { charge = fake_charge }

pub record Config : Type 0 where
  pub failure_threshold : ℕ
  pub success_threshold : ℕ
  pub open_timeout : ℕ
  pub is_failure : Error → Bool

pub data BreakerState : Type 0 where
  closed open_circuit half_open : BreakerState

pub record Breaker : Type 0 where
  pub state : BreakerState
  pub failures : ℕ
  pub successes : ℕ
  pub opened_at : ℕ
  pub half_in_flight : Bool

-- The test that `NewCircuitBreakerGateway` puts in where there is none.
unfoldable pub default_is_failure : Error → Bool
unfolding is
default_is_failure e = is e timeout || is e server || is e deadline_exceeded

abbrev pub or_default : ℕ → ℕ → ℕ
or_default d n = if leb n 0 then d else n

unfoldable pub new_config : ℕ → ℕ → ℕ → Option (Error → Bool) → Config
unfolding default_is_failure
new_config failure success open_for test = record {
  failure_threshold = or_default 5 failure;
  success_threshold = or_default 1 success;
  open_timeout = or_default (2000 * millisecond) open_for;
  is_failure = elim test [ none ↦ default_is_failure | some f ↦ f ];
}

unfoldable pub new_breaker : Breaker
new_breaker = record {
  state = closed;
  failures = 0;
  successes = 0;
  opened_at = 0;
  half_in_flight = false;
}

-- The case `cbHalfOpen` of `beforeCall`.
abbrev pub probe : Breaker → Option Error × Breaker
probe b =
    if b.half_in_flight
    then (some (sentinel circuit_open), b)
    else (none, record b { half_in_flight = true })

unfoldable pub before_call : Config → ℕ → Breaker → Option Error × Breaker
before_call cfg now b = elim b.state [
  | closed ↦ (none, b)
  | open_circuit ↦
      if leb cfg.open_timeout (now - b.opened_at)
      then probe (record b { state = half_open; successes = 0; half_in_flight = false })
      else (some (sentinel circuit_open), b)
  | half_open ↦ probe b
]

-- The two switches of `afterCall`.
abbrev pub on_success : Config → Breaker → Breaker
on_success cfg b = elim b.state [
  | closed ↦ record b { failures = 0 }
  | open_circuit ↦ b
  | half_open ↦
      if leb cfg.success_threshold (b.successes + 1)
      then record b { state = closed; failures = 0; successes = 0 }
      else record b { successes = b.successes + 1 }
]

abbrev pub trip : ℕ → Breaker → Breaker
trip now b = record b {
  state = open_circuit;
  opened_at = now;
  successes = 0;
  half_in_flight = false;
}

abbrev pub on_failure : Config → ℕ → Breaker → Breaker
on_failure cfg now b = elim b.state [
  | closed ↦
      if leb cfg.failure_threshold (b.failures + 1)
      then trip now (record b { failures = b.failures + 1 })
      else record b { failures = b.failures + 1 }
  | open_circuit ↦ b
  | half_open ↦ trip now (record b { failures = cfg.failure_threshold })
]

abbrev pub settle : Breaker → Breaker
settle b = elim b.state [ half_open ↦ record b { half_in_flight = false } | _ ↦ b ]

unfoldable pub after_call : Config → ℕ → Option Error → Breaker → Breaker
after_call cfg now none b = on_success cfg (settle b)
after_call cfg now (some e) b = if cfg.is_failure e then on_failure cfg now (settle b) else settle b

-- The error that a call returned, or nil.
abbrev pub error_of : Result String → Option Error
error_of (err e) = some e
error_of _ = none

-- `CircuitBreakerGateway.Charge`. A panic of the next gateway skips `afterCall`.
abbrev pub finish :
    {S : Type 0} → Config → Result String × (S × ℕ) → Breaker → Result String × ((S × Breaker) × ℕ)
finish cfg (panic, (s, now)) b = (panic, ((s, b), now))
finish cfg (r, (s, now)) b = (r, ((s, after_call cfg now (error_of r) b), now))

module _ {S : Type 0} (next : Gateway S) (cfg : Config) where
  unfoldable pub breaker_charge :
      Context → String → ℤ → (S × Breaker) × ℕ → Result String × ((S × Breaker) × ℕ)
  unfolding before_call after_call
  breaker_charge ctx payment amount ((s, b), now) =
      let (refused, b') = before_call cfg now b in
      elim refused [
        | some e ↦ (err e, ((s, b'), now))
        | none ↦ finish cfg (next.charge ctx payment amount (s, now)) b'
      ]

  abbrev pub breaker_gateway : Gateway (S × Breaker)
  breaker_gateway = record { charge = breaker_charge }
