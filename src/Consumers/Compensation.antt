-- ===== src/Consumers/Compensation.antt =====
-- A payment whose charge fails for good, across the handlers of wallet_event.go and
-- payment_result_event.go in cmd/consumers/handlers.
use challenge_senior.Prelude.{ℕ, String, ◌≡◌, refl, ap, ◌∙◌, Option, some}
use challenge_senior.Prelude.Int.{ℤ}
use challenge_senior.Prelude.Int64.{IsInt64}
use challenge_senior.Kit.Action.{Result, ok, err, panic}
use challenge_senior.Wallet.{debit, refund}
use challenge_senior.Wallet.Laws.{IsLedger}
use challenge_senior.Wallet.Safety.{refund-debit}
use challenge_senior.Payment.{Payment}
use challenge_senior.Payment as Pay
use challenge_senior.Payment.Laws.{IsStore}
use challenge_senior.Payment.Service.{failed, marked, after, perform_stored}
use challenge_senior.Payment.Marks.{stored-perform}
use challenge_senior.Events.{
  Event, WalletDebitRequested, WalletRefundRequested, PaymentChargeFailed, wallet_debit_requested,
  wallet_refund_requested, payment_charge_failed,
}
use challenge_senior.Consumers.WalletEvent.{
  Parts, State, handle_wallet_debit_requested, handle_wallet_refund_requested, answer_refund,
}
use challenge_senior.Consumers.WalletEvent.Debits.{handled_wallet}
use challenge_senior.Consumers.PaymentResultEvent.{handle_charge_failed, refund_request}
use challenge_senior.Consumers.Transitions.{handle_charge_failed_lem}

module _ {S T : Type 0} (parts : Parts S T) where
  answer_refund-wallet :
      (evt : Event) (r : Result (Unit {0})) (s : State S T)
      → (answer_refund parts evt r s).1.wallet ≡ s.wallet
  answer_refund-wallet evt (ok _) s = refl
  answer_refund-wallet evt (err x) s = refl
  answer_refund-wallet evt panic s = refl

  refunded_wallet :
      (now : ℕ) (e : WalletRefundRequested) (s : State S T)
      → (handle_wallet_refund_requested parts now (wallet_refund_requested e) s).1.wallet
        ≡ (refund parts.repository e.user_id e.amount s.wallet).1
  unfolding handle_wallet_refund_requested
  refunded_wallet now e s =
      answer_refund-wallet _ (refund parts.repository e.user_id e.amount s.wallet).0 _

-- Over repositories that keep their contracts, and where the balance and the amount are int64s:
-- a payment that is stored under its id was debited, for its user and amount, with success, and
-- its charge then fails for good. Handling the failure succeeds, stores the payment as failed
-- and publishes a refund of the stored amount to the stored user behind the event of the
-- transition; handling that refund gives every user what they held before the debit.
pub failed_charge_is_compensated :
    {S T P O : Type 0} (wallet_parts : Parts S T) (held : S → String → ℤ)
    (ledger : IsLedger wallet_parts.repository held) (payment_parts : Pay.Parts P O)
    (publish : Event → O → O) (stored : P → String → Option Payment)
    (store : IsStore payment_parts.repository stored) (t₁ t₂ t₃ t₄ : ℕ) (e : WalletDebitRequested)
    (f : PaymentChargeFailed) (w : State S T) (s : Pay.State P O) {p : Payment} (j : String)
    → stored s.repo f.payment_id ≡ some p
    → p.id ≡ f.payment_id
    → e.user_id ≡ p.user_id
    → e.amount ≡ p.amount
    → IsInt64 (held w.wallet.repo e.user_id)
    → IsInt64 e.amount
    → (debit wallet_parts.repository e.user_id e.amount w.wallet).0 ≡ ok tt
    → let w' = (handle_wallet_debit_requested wallet_parts t₁ (wallet_debit_requested e) w).1 in
      let marked_failed = after payment_parts t₂ f.payment_id (failed f.reason) p s in
      let (r, s') = handle_charge_failed payment_parts publish t₂ t₃ (payment_charge_failed f) s in
      (r ≡ ok tt)
      × (stored s'.repo f.payment_id ≡ some (marked (failed f.reason) p))
      × (s'.outside ≡ publish (refund_request p t₃) marked_failed.outside)
      × (held
            (handle_wallet_refund_requested wallet_parts t₄ (refund_request p t₃) w').1.wallet.repo
            j
          ≡ held w.wallet.repo j)
failed_charge_is_compensated wallet_parts held ledger payment_parts publish stored store t₁ t₂ t₃ t₄
      e f w s {p} j found own same_user same_amount hi ai paid =
    let handled = handle_charge_failed_lem payment_parts publish stored store t₂ t₃ f s found own in
    let kept =
      stored-perform payment_parts stored store t₂ f.payment_id (failed f.reason) s found own in
    (
      ap (λ o. o.0) handled,
      rw handled (
          rw (perform_stored payment_parts stored store t₂ f.payment_id (failed f.reason) s found)
            at kept),
      ap (λ o. o.1.outside) handled,
      ap (λ v. held v.repo j)
            (refunded_wallet wallet_parts t₄ _
              (handle_wallet_debit_requested wallet_parts t₁ (wallet_debit_requested e) w).1)
          ∙ rw (handled_wallet wallet_parts held ledger t₁ e w, ← same_user, ← same_amount)
              (refund-debit wallet_parts.repository held ledger e.user_id e.amount w.wallet j hi ai
                paid),
    )
