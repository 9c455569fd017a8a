-- ===== src/Consumers/RecoveryEvent.antt =====
-- cmd/consumers/handlers/recovery_event.go. `sleep` is the handler's `SleepFunc`; the clock is
-- read after it.
use challenge_senior.Prelude.{ℕ, ◌+◌, Option, none, some, ◌==◌, if◌then◌else◌}
use challenge_senior.Kit.Errors.{Error}
use challenge_senior.Kit.Action.{err, Action, modify, raise, ◌>>=◌}
use challenge_senior.Kit.Context.{Context, wait}
use challenge_senior.Events.{
  Event, RecoveryRequested, recovery_requested, payment_charge_requested, wallet_debit_requested,
}
use challenge_senior.Payment.{Payment, Parts, State, get}
use challenge_senior.Consumers.{unexpected, unknown_action}

-- `SleepFunc`: the error, and the time at which it returns.
abbrev pub SleepFunc : Type 0
SleepFunc = Context → ℕ → ℕ → Option Error × ℕ

-- `DefaultSleep`
unfoldable pub default_sleep : SleepFunc
unfolding wait
default_sleep ctx d now = wait ctx d now

abbrev pub charge_again : Payment → ℕ → ℕ → Event
charge_again p attempt now = payment_charge_requested (record {
  payment_id = p.id;
  user_id = p.user_id;
  amount = p.amount;
  service = p.service;
  attempt = attempt;
  at = now;
})

abbrev pub debit_again : Payment → ℕ → ℕ → Event
debit_again p attempt now = wallet_debit_requested (record {
  payment_id = p.id;
  user_id = p.user_id;
  amount = p.amount;
  attempt = attempt;
  at = now;
})

module _ {S T : Type 0} (parts : Parts S T) (publish : Event → T → T) (sleep : SleepFunc)
    (delay : ℕ) where
  abbrev pub send : Event → Action (State S T) (Unit {0})
  send evt = modify (λ s. record s { outside = publish evt s.outside })

  -- The switch on the action.
  unfoldable pub republish : RecoveryRequested → ℕ → Payment → Action (State S T) (Unit {0})
  republish e now p =
      if e.action == "payment.charge"
      then send (charge_again p (e.attempts + 1) now)
      else if e.action == "wallet.debit"
      then send (debit_again p (e.attempts + 1) now)
      else raise (unknown_action e.action)

  -- What follows the sleep.
  abbrev pub awake : RecoveryRequested → Option Error × ℕ → Action (State S T) (Unit {0})
  awake e (some x, now) = raise x
  awake e (none, now) = do p ← get parts e.payment_id; republish e now p

  unfoldable pub handle_recovery_requested : Context → ℕ → Event → Action (State S T) (Unit {0})
  unfolding republish
  handle_recovery_requested ctx now (recovery_requested e) = awake e (sleep ctx delay now)
  handle_recovery_requested ctx now evt = λ s. (err (unexpected evt), s)
