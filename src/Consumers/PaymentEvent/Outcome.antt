-- ===== src/Consumers/PaymentEvent/Outcome.antt =====
-- What a charge comes to (cmd/consumers/handlers/payment_event.go), whatever the gateway does.
use challenge_senior.Prelude.{
  ℕ, zero, suc, ◌+◌, ◌-◌, ◌*◌, ◌≤◌, ◌<◌, String, true, false, ◌&&◌, ◌≡◌, refl, ap, inl, inr, some,
  Bool-cases, ltb, leb, eqb, arith,
}
use mathlib.Core.Path.{subst}
use challenge_senior.Kit.Errors.{Error, is, message, client}
use challenge_senior.Kit.Action.{Result, ok, err, panic, Result-cases}
use challenge_senior.Kit.Context.{Context, millisecond}
use challenge_senior.Events.{PaymentChargeRequested, payment_charge_requested}
use challenge_senior.Consumers.PaymentEvent.{
  Parts, State, is_retryable, dlq_to, charge_failed, charge_succeeded, recovery_request, send,
  call_gateway, give_up, charge_loop, enough, ended, handle_charge_requested,
}

module _ {S T : Type 0} (parts : Parts S T) where
  -- The charge `e` took the world outside from `t` to `t'`: it published one event, which names
  -- its payment. A recovery is asked for at the fifth attempt, after a note to the dead letters.
  pub data Settles (e : PaymentChargeRequested) (t t' : T) : Type 0 where
    succeeds :
        (gateway : String) (now : ℕ)
        → t' ≡ parts.publish (charge_succeeded e gateway now) t
        → Settles e t t'
    fails : (x : Error) (now : ℕ) → t' ≡ parts.publish (charge_failed e x now) t → Settles e t t'
    recovers :
        (x : Error) (now : ℕ)
        → e.attempt ≤ 5
        → is_retryable x ≡ true
        → is x client ≡ false
        → t'
          ≡ parts.publish (recovery_request e x 5 now) (
              dlq_to parts.send_to_dlq "recovery.requested"
                (message x)
                (payment_charge_requested e)
                t)
        → Settles e t t'

  -- How a call of the handler ended.
  abbrev pub Ends : PaymentChargeRequested → T → Result (Unit {0}) × State S T → Type 0
  Ends e t (ok _, s') = Settles e t s'.outside
  Ends e t (err x, s') = ⊥
  Ends e t (panic, s') = s'.outside ≡ t

  give_up-Settles :
      (e : PaymentChargeRequested) (x : Error) (attempt : ℕ) (s : State S T)
      → e.attempt ≤ attempt
      → Settles e s.outside (give_up parts e x attempt s).outside
  unfolding give_up
  give_up-Settles e x attempt s h = elim (Bool-cases (is x client)) [
    | inl yes_client ↦ fails x s.now (rw yes_client)
    | inr not_client ↦ elim (Bool-cases (is_retryable x && leb 5 attempt)) [
      | inr over ↦ fails x s.now (rw (not_client, over))
      | inl late ↦ elim (Bool-cases (eqb attempt 5)) [
        | inr beyond ↦ fails x s.now (rw (not_client, late, beyond))
        | inl five ↦
            recovers x s.now (ground arith) (ground arith) not_client
              (rw (not_client, late, five, the_fifth five))
      ]
    ]
  ]
    where
      the_fifth : eqb attempt 5 ≡ true → attempt ≡ 5
      the_fifth q = ground arith

  pub calls_keep_outside :
      (ctx : Context) (e : PaymentChargeRequested) (s : State S T)
      → (call_gateway parts ctx e s).1.outside ≡ s.outside
  unfolding call_gateway
  calls_keep_outside ctx e s = refl

  -- Fuel past the attempts that are left to the fifth is enough, and the loop then settles the
  -- charge unless the gateway panics.
  pub round-Ends :
      (fuel : ℕ) (ctx : Context) (e : PaymentChargeRequested) (attempt : ℕ) (s : State S T)
      → 5 - attempt < fuel
      → e.attempt ≤ attempt
      → (r : Result (Unit {0}) × State S T) × (charge_loop parts fuel ctx e attempt s ≡ some r)
        × Ends e s.outside r
  unfolding charge_loop
  round-Ends zero ctx e attempt s room h = elim room [ ]
  round-Ends (suc fuel) ctx e attempt s room h =
      let s' = (call_gateway parts ctx e s).1 in
      let out = calls_keep_outside ctx e s in
      elim (Result-cases (call_gateway parts ctx e s).0) [
        | inl (gateway, answered) ↦ (
          (ok tt, send parts (charge_succeeded e gateway s'.now) s'),
          rw (answered, charge_loop),
          succeeds gateway s'.now (rw out),
        )
        | inr (inr panicked) ↦ ((panic, s'), rw (panicked, charge_loop), out)
        | inr (inl (x, refused)) ↦ elim (Bool-cases (is_retryable x && ltb attempt 5)) [
          | inr done ↦ (
            (ok tt, give_up parts e x attempt s'),
            rw (refused, done, charge_loop),
            rw out at (give_up-Settles e x attempt s' h),
          )
          | inl again ↦
              let s'' = record s' { now = s'.now + 50 * attempt * millisecond } in
              let (r, eq, ends) =
                round-Ends fuel ctx e (attempt + 1) s'' (ground arith) (omega arith) in
              (r, rw (refused, again, charge_loop) eq, subst (λ t. Ends e t r) out ends)
        ]
      ]

  -- Whatever the gateway does, the loop of a charge request ends within the fuel that the
  -- handler gives it, and the handler returns what the loop comes to. Unless the gateway
  -- panics, that is no error, and it has published exactly one event: a success, a failure, or
  -- a request for recovery, which follows a retryable error other than of the client on a
  -- request from an attempt up to the fifth, behind a note to the dead letters. Where the
  -- gateway panics, nothing has been published.
  pub handle_charge_requested_lem :
      (ctx : Context) (e : PaymentChargeRequested) (s : State S T)
      → (r : Result (Unit {0}) × State S T) × (charge_loop parts
            (enough e.attempt)
            ctx
            e
            e.attempt
            s
          ≡ some r)
        × (handle_charge_requested parts ctx (payment_charge_requested e) s ≡ r)
        × Ends e s.outside r
  unfolding handle_charge_requested
  handle_charge_requested_lem ctx e s =
      let (r, eq, ends) =
        round-Ends (enough e.attempt) ctx e e.attempt s (omega arith) (omega arith) in
      (r, eq, ap (ended (panic, s)) eq, ends)
