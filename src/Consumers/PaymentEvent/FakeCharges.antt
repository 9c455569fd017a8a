-- ===== src/Consumers/PaymentEvent/FakeCharges.antt =====
-- The charge over a gateway that keeps failing, and over the fake gateway of
-- kit/external_payment_gateway/gateway.go.
use Prim.Native.String.{◌++◌ as text_append}
use mathlib.Core.Path.{subst}
use challenge_senior.Prelude.{
  ℕ, zero, suc, ◌+◌, ◌-◌, ◌*◌, ◌≤◌, ◌<◌, String, true, false, ◌≡◌, refl, ap, ◌∙◌, ◌⊎◌, inl, inr,
  Option, none, some, arith, lt→ltb,
}
use challenge_senior.Kit.Errors.{Error, sentinel, is, message, client, canceled, deadline_exceeded}
use challenge_senior.Kit.Action.{ok, err, panic}
use challenge_senior.Kit.Context.{Context, millisecond}
use challenge_senior.Kit.Gateway.{divides, fake_gateway, fake_charge}
use challenge_senior.Events.{Event, PaymentChargeRequested, payment_charge_requested}
use challenge_senior.Consumers.PaymentEvent.{
  Parts, State, is_retryable, error_code, dlq_to, charge_failed, charge_succeeded, recovery_request,
  send, call_gateway, give_up, charge_loop, enough, ended, handle_charge_requested,
}
use challenge_senior.Consumers.PaymentEvent.Outcome.{calls_keep_outside}

before_fifth : (n : ℕ) → n ≤ 5 → (n < 5) ⊎ (n ≡ 5)
before_fifth n h = omega arith

module _ {S T : Type 0} (parts : Parts S T) (ctx : Context) (e : PaymentChargeRequested) (x : Error)
    (down : (s : State S T) → (call_gateway parts ctx e s).0 ≡ err x)
    (retried : is_retryable x ≡ true) (external : is x client ≡ false) where
  retry_step :
      (fuel attempt : ℕ) (s : State S T)
      → attempt < 5
      → charge_loop parts (suc fuel) ctx e attempt s
        ≡ charge_loop parts fuel ctx e (attempt + 1) (record (call_gateway parts ctx e s).1 {
          now = (call_gateway parts ctx e s).1.now + 50 * attempt * millisecond;
        })
  unfolding charge_loop
  retry_step fuel attempt s early = rw (down s, retried, lt→ltb attempt 5 early, charge_loop)

  fifth_step :
      (fuel : ℕ) (s : State S T)
      → charge_loop parts (suc fuel) ctx e 5 s
        ≡ some (ok tt, give_up parts e x 5 (call_gateway parts ctx e s).1)
  unfolding charge_loop
  fifth_step fuel s = rw (down s, retried, charge_loop)

  -- A recovery has been asked for at `now`, where the world outside was `t`.
  abbrev Asked : ℕ → State S T → T → Type 0
  Asked now s' t =
      s'.outside
      ≡ parts.publish (recovery_request e x 5 now)
          (dlq_to parts.send_to_dlq "recovery.requested" (message x) (payment_charge_requested e) t)

  given_up : (s : State S T) → Asked s.now (give_up parts e x 5 s) s.outside
  unfolding give_up
  given_up s = rw (external, retried)

  exhausts :
      (fuel attempt : ℕ) (s : State S T)
      → 5 - attempt < fuel
      → attempt ≤ 5
      → (now : ℕ) × (s' : State S T) × (charge_loop parts fuel ctx e attempt s ≡ some (ok tt, s'))
        × Asked now s' s.outside
  exhausts zero attempt s room h = elim room [ ]
  exhausts (suc fuel) attempt s room h = elim (before_fifth attempt h) [
    | inl early ↦
        let s₁ = (call_gateway parts ctx e s).1 in
        let s₂ = record s₁ { now = s₁.now + 50 * attempt * millisecond } in
        let (now, s', eq, out) = exhausts fuel (attempt + 1) s₂ (omega arith) (omega arith) in
        (
          now,
          s',
          retry_step fuel attempt s early ∙ eq,
          subst (Asked now s') (calls_keep_outside parts ctx e s) out,
        )
    | inr fifth ↦ (
      (call_gateway parts ctx e s).1.now,
      give_up parts e x 5 (call_gateway parts ctx e s).1,
      rw fifth (fifth_step fuel s),
      rw (given_up (call_gateway parts ctx e s).1) (rw (calls_keep_outside parts ctx e s)),
    )
  ]

-- The handler with the fake gateway, as cmd/consumers/main.go puts it together.
abbrev pub fake_parts :
    {S T : Type 0} → (Event → T → T) → Option (String → String → Event → T → T) → Parts S T
fake_parts publish dlq = record { gateway = fake_gateway; publish = publish; send_to_dlq = dlq }

-- A context that is neither done nor has a deadline.
abbrev pub IsLive : Context → Type 0
IsLive ctx = (ctx.failure ≡ none) × (ctx.deadline ≡ none)

module _ {S T : Type 0} (publish : Event → T → T) (dlq : Option (String → String → Event → T → T))
    (ctx : Context) (e : PaymentChargeRequested) where
  abbrev pub charged : State S T → State S T
  charged s =
      (handle_charge_requested (fake_parts publish dlq) ctx (payment_charge_requested e) s).1

  -- An amount that 5 divides runs into the timeout of 200 ms.
  fives_time_out :
      IsLive ctx
      → divides 5 e.amount ≡ true
      → (s : State S T)
      → (call_gateway (fake_parts publish dlq) ctx e s).0 ≡ err (sentinel deadline_exceeded)
  unfolding call_gateway fake_charge
  fives_time_out live five s = ground arith

  -- On a context that is neither done nor has a deadline, the handler with the fake gateway of
  -- a charge request from an attempt up to the fifth, for an amount that 5 divides, notes a
  -- dead letter and asks for recovery once, with the code 408.
  pub five_recovers :
      (s : State S T)
      → IsLive ctx
      → divides 5 e.amount ≡ true
      → e.attempt ≤ 5
      → (now : ℕ) × ((charged s).outside
          ≡ publish (recovery_request e (sentinel deadline_exceeded) 5 now) (
              dlq_to dlq "recovery.requested" "context deadline exceeded"
                (payment_charge_requested e)
                s.outside))
        × (error_code (sentinel deadline_exceeded) ≡ "408")
  unfolding handle_charge_requested message is error_code is_retryable
  five_recovers s live five early =
      let (now, s', eq, out) =
        exhausts (fake_parts publish dlq) ctx e (sentinel deadline_exceeded)
          (fives_time_out live five) refl refl (enough e.attempt) e.attempt s (omega arith) early in
      (now, ap (λ r. (ended (panic, s) r).1.outside) eq ∙ out, refl)

  -- A charge of an amount that neither 5, 11 nor 7 divides succeeds at the first call, 50 ms later.
  pub other_succeeds :
      (s : State S T)
      → IsLive ctx
      → divides 5 e.amount ≡ false
      → divides 11 e.amount ≡ false
      → divides 7 e.amount ≡ false
      → (charged s).outside
        ≡ publish
            (charge_succeeded e (text_append "gw_" e.payment_id) (s.now + 50 * millisecond))
            s.outside
  unfolding handle_charge_requested charge_loop call_gateway fake_charge
  other_succeeds s live n5 n11 n7 = ground arith

  -- On a context that has been cancelled, the handler with the fake gateway publishes a failure
  -- for good after the first call, whatever the amount and the attempt.
  pub cancelled_fails :
      (s : State S T)
      → ctx.failure ≡ some (sentinel canceled)
      → handle_charge_requested (fake_parts publish dlq) ctx (payment_charge_requested e) s
        ≡ (ok tt, send (fake_parts publish dlq) (charge_failed e (sentinel canceled) s.now) s)
  unfolding handle_charge_requested charge_loop call_gateway give_up fake_charge is_retryable is
  cancelled_fails s done = ground arith
