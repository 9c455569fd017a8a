-- ===== src/Consumers/PaymentEvent.antt =====
-- cmd/consumers/handlers/payment_event.go: the charge of a payment, with retries.
pub mod Outcome
pub mod FakeCharges
use challenge_senior.Prelude.{
  ℕ, zero, suc, ◌+◌, ◌-◌, ◌*◌, String, Bool, false, ◌||◌, ◌&&◌, Option, none, some, if◌then◌else◌,
  eqb, ltb, leb,
}
use challenge_senior.Kit.Errors.{
  Error, is, message, timeout, server, client, circuit_open, deadline_exceeded,
}
use challenge_senior.Kit.Action.{Result, ok, err, panic}
use challenge_senior.Kit.Context.{Context, millisecond, with_timeout}
use challenge_senior.Kit.Gateway.{Gateway}
use challenge_senior.Events.{
  Event, PaymentChargeRequested, RecoveryRequested, payment_charge_requested,
  payment_charge_succeeded, payment_charge_failed, recovery_requested,
}
use challenge_senior.Consumers.{unexpected}

-- What the handler is given: a gateway, the bus, and the recovery service unless it is nil, whose
-- `SendToDLQ` takes the topic, the reason and the event.
pub record Parts (S T : Type 0) : Type 0 where
  pub gateway : Gateway S
  pub publish : Event → T → T
  pub send_to_dlq : Option (String → String → Event → T → T)

pub record State (S T : Type 0) : Type 0 where
  pub gateway_state : S
  pub now : ℕ
  pub outside : T

unfoldable pub is_retryable : Error → Bool
is_retryable e = is e timeout || is e server || is e deadline_exceeded || is e circuit_open

-- The four tests that set `errorCode`; the last that passes counts.
unfoldable pub error_code : Error → String
error_code e =
    if is e client
    then "4xx"
    else if is e server
    then "5xx"
    else if is e timeout || is e deadline_exceeded
    then "408"
    else if is e circuit_open
    then "cb_open"
    else ""

abbrev pub dlq_to :
    {T : Type 0} → Option (String → String → Event → T → T) → String → String → Event → T → T
dlq_to none topic reason evt t = t
dlq_to (some f) topic reason evt t = f topic reason evt t

abbrev pub charge_failed : PaymentChargeRequested → Error → ℕ → Event
charge_failed e x now = payment_charge_failed (record {
  payment_id = e.payment_id;
  user_id = e.user_id;
  reason = message x;
  retryable = false;
  error_code = error_code x;
  at = now;
})

abbrev pub charge_succeeded : PaymentChargeRequested → String → ℕ → Event
charge_succeeded e gateway now =
    payment_charge_succeeded
      (record { payment_id = e.payment_id; user_id = e.user_id; gateway_id = gateway; at = now })

abbrev pub recovery_request : PaymentChargeRequested → Error → ℕ → ℕ → Event
recovery_request e x attempt now = recovery_requested (record {
  payment_id = e.payment_id;
  user_id = e.user_id;
  action = "payment.charge";
  reason = message x;
  error_code = error_code x;
  attempts = attempt;
  at = now;
})

-- The rounds that are left to the fifth attempt, and one.
abbrev pub enough : ℕ → ℕ
enough attempt = suc (5 - attempt)

-- What the loop came to; `d` stands for a loop that has run out of fuel.
abbrev pub ended {ℓ} :
    {A : Type ℓ} → Result (Unit {0}) × A → Option (Result (Unit {0}) × A) → Result (Unit {0}) × A
ended d none = d
ended d (some r) = r

module _ {S T : Type 0} (parts : Parts S T) where
  -- One call of the gateway under a timeout of 200 ms.
  unfoldable pub call_gateway :
      Context → PaymentChargeRequested → State S T → Result String × State S T
  unfolding with_timeout
  call_gateway ctx e s =
      let (r, (g, now)) =
        parts.gateway.charge (with_timeout ctx (200 * millisecond) s.now) e.payment_id e.amount
          (s.gateway_state, s.now) in
      (r, record s { gateway_state = g; now = now })

  abbrev pub send : Event → State S T → State S T
  send evt s = record s { outside = parts.publish evt s.outside }

  -- What follows the retries, in the order of the code's tests.
  unfoldable pub give_up : PaymentChargeRequested → Error → ℕ → State S T → State S T
  give_up e x attempt s =
      if is x client
      then send (charge_failed e x s.now) s
      else if is_retryable x && leb 5 attempt
      then (if eqb attempt 5
          then record s {
            outside = parts.publish (recovery_request e x attempt s.now) (
                dlq_to parts.send_to_dlq "recovery.requested" (message x)
                  (payment_charge_requested e) s.outside);
          }
          else send (charge_failed e x s.now) s)
      else send (charge_failed e x s.now) s

  -- The loop, on fuel; `none` means that the fuel ran out. Before a retry it sleeps 50 ms for
  -- each attempt so far.
  unfoldable pub charge_loop :
      ℕ → Context → PaymentChargeRequested → ℕ → State S T → Option (Result (Unit {0}) × State S T)
  charge_loop zero ctx e attempt s = none
  charge_loop (suc fuel) ctx e attempt s =
      let (r, s') = call_gateway ctx e s in
      elim r [
        | ok gateway ↦ some (ok tt, send (charge_succeeded e gateway s'.now) s')
        | panic ↦ some (panic, s')
        | err x ↦
            let again =
              charge_loop fuel ctx e (attempt + 1)
                (record s' { now = s'.now + 50 * attempt * millisecond }) in
            if is_retryable x && ltb attempt 5 then again else some (ok tt, give_up e x attempt s')
      ]

  unfoldable pub handle_charge_requested :
      Context → Event → State S T → Result (Unit {0}) × State S T
  handle_charge_requested ctx (payment_charge_requested e) s =
      ended (panic, s) (charge_loop (enough e.attempt) ctx e e.attempt s)
  handle_charge_requested ctx evt s = (err (unexpected evt), s)
