-- ===== src/Consumers/WalletEvent.antt =====
-- cmd/consumers/handlers/wallet_event.go: the handlers that move money. The argument `now` is what
-- the clock reads.
pub mod Debits
use challenge_senior.Prelude.{ℕ, String, ◌&&◌, if◌then◌else◌, eqb}
use challenge_senior.Prelude.Int.{ℤ}
use challenge_senior.Kit.Errors.{Error, is_internal, message}
use challenge_senior.Kit.Action.{Result, ok, err, panic, Action, raise}
use challenge_senior.Wallet.{Repository, Wallet, debit, refund}
use challenge_senior.Events.{
  Event, WalletDebitRequested, payment_initialized, wallet_debit_requested, wallet_debited,
  wallet_debit_rejected, wallet_refund_requested, wallet_refunded, recovery_requested,
}
use challenge_senior.Consumers.{unexpected}

-- The wallet service's state, and the world that the bus publishes to.
pub record State (S T : Type 0) : Type 0 where
  pub wallet : Wallet S
  pub outside : T

pub record Parts (S T : Type 0) : Type 0 where
  pub repository : Repository S
  pub publish : Event → T → T

abbrev pub debit_recovery : WalletDebitRequested → Error → ℕ → Event
debit_recovery e x now = recovery_requested (record {
  payment_id = e.payment_id;
  user_id = e.user_id;
  action = "wallet.debit";
  reason = message x;
  error_code = "db_internal";
  attempts = e.attempt;
  at = now;
})

abbrev pub debit_rejected : WalletDebitRequested → Error → ℕ → Event
debit_rejected e x now =
    wallet_debit_rejected
      (record { payment_id = e.payment_id; user_id = e.user_id; reason = message x; at = now })

abbrev pub debited : WalletDebitRequested → ℕ → Event
debited e now =
    wallet_debited
      (record { payment_id = e.payment_id; user_id = e.user_id; amount = e.amount; at = now })

module _ {S T : Type 0} (parts : Parts S T) where
  abbrev pub send : Event → State S T → State S T
  send evt s = record s { outside = parts.publish evt s.outside }

  unfoldable pub handle_payment_initialized : ℕ → Event → Action (State S T) (Unit {0})
  handle_payment_initialized now (payment_initialized e) s = (
    ok tt,
    send
        (wallet_debit_requested (record {
          payment_id = e.payment_id;
          user_id = e.user_id;
          amount = e.amount;
          attempt = 1;
          at = now;
        }))
        s,
  )
  handle_payment_initialized now evt s = (err (unexpected evt), s)

  -- What follows the debit.
  abbrev pub answer_debit :
      ℕ → WalletDebitRequested → Result (Unit {0}) → State S T → Result (Unit {0}) × State S T
  answer_debit now e (ok _) s = (ok tt, send (debited e now) s)
  answer_debit now e (err x) s =
      if is_internal x && eqb e.attempt 1
      then (ok tt, send (debit_recovery e x now) s)
      else (ok tt, send (debit_rejected e x now) s)
  answer_debit now e panic s = (panic, s)

  unfoldable pub handle_wallet_debit_requested : ℕ → Event → Action (State S T) (Unit {0})
  handle_wallet_debit_requested now (wallet_debit_requested e) s =
      let (r, w) = debit parts.repository e.user_id e.amount s.wallet in
      answer_debit now e r (record s { wallet = w })
  handle_wallet_debit_requested now evt s = (err (unexpected evt), s)

  abbrev pub answer_refund : Event → Result (Unit {0}) → State S T → Result (Unit {0}) × State S T
  answer_refund evt (ok _) s = (ok tt, send evt s)
  answer_refund evt r s = (r, s)

  unfoldable pub handle_wallet_refund_requested : ℕ → Event → Action (State S T) (Unit {0})
  handle_wallet_refund_requested now (wallet_refund_requested e) s =
      let (r, w) = refund parts.repository e.user_id e.amount s.wallet in
      answer_refund
        (wallet_refunded
          (record { payment_id = e.payment_id; user_id = e.user_id; amount = e.amount; at = now }))
        r (record s { wallet = w })
  handle_wallet_refund_requested now evt s = (err (unexpected evt), s)

-- The two handlers that only log.
unfoldable pub handle_wallet_debited : {S T : Type 0} → Event → Action (State S T) (Unit {0})
handle_wallet_debited (wallet_debited e) s = (ok tt, s)
handle_wallet_debited evt s = (err (unexpected evt), s)

unfoldable pub handle_wallet_refunded : {S T : Type 0} → Event → Action (State S T) (Unit {0})
handle_wallet_refunded (wallet_refunded e) s = (ok tt, s)
handle_wallet_refunded evt s = (err (unexpected evt), s)
