-- ===== src/Consumers/DebitRetries.antt =====
-- A debit that reports an internal error, and its recovery (wallet_event.go and recovery_event.go in
-- cmd/consumers/handlers), over any repositories that keep their contracts.
use challenge_senior.Prelude.{ℕ, ◌+◌, String, true, ◌≡◌, ap, ◌∙◌, Option, none, some}
use challenge_senior.Prelude.Int.{ℤ, ◌-ℤ◌, ◌≤ℤ◌}
use challenge_senior.Prelude.Int64.{IsInt64}
use challenge_senior.Kit.Errors.{Error, is_internal}
use challenge_senior.Kit.Action.{ok, err}
use challenge_senior.Kit.Context.{Context}
use challenge_senior.Wallet.{debit}
use challenge_senior.Wallet.Laws.{IsLedger}
use challenge_senior.Payment.{Payment}
use challenge_senior.Payment as Pay
use challenge_senior.Payment.Laws.{IsStore}
use challenge_senior.Events.{Event, WalletDebitRequested, wallet_debit_requested}
use challenge_senior.Consumers.WalletEvent.{
  State, Parts, debit_recovery, handle_wallet_debit_requested,
}
use challenge_senior.Consumers.WalletEvent.Debits.{taken_again, asks_recovery}
use challenge_senior.Consumers.RecoveryEvent.{SleepFunc, debit_again, handle_recovery_requested}
use challenge_senior.Consumers.Transitions.{handle_recovery_requested_lem}

module _ {S T R U : Type 0} (parts : Parts S T) (held : S → String → ℤ)
    (laws : IsLedger parts.repository held) (pays : Pay.Parts R U) (publish : Event → U → U)
    (stored : R → String → Option Payment) (store : IsStore pays.repository stored)
    (sleep : SleepFunc) (delay : ℕ) where
  -- Over any wallet repository that keeps its contract and any payment repository that is a map
  -- from ids to payments, and where the amount and the balances are int64s: the debit of a
  -- first request, for the user and amount of a stored payment, reports an internal error. Then
  -- the handler asks for recovery; the handler of that request for recovery, after a sleep that
  -- is not cut short, publishes a second debit request; and handling that request takes the
  -- amount once more, if what is left covers it.
  pub unsaved_debit_is_taken_twice :
      (now asked woken later : ℕ) (ctx : Context) (e : WalletDebitRequested) (s : State S T)
      (t : Pay.State R U) {x : Error} {p : Payment}
      → e.attempt ≡ 1
      → stored t.repo e.payment_id ≡ some p
      → p.user_id ≡ e.user_id
      → p.amount ≡ e.amount
      → sleep ctx delay asked ≡ (none, woken)
      → IsInt64 (held s.wallet.repo e.user_id)
      → IsInt64 (held s.wallet.repo e.user_id -ℤ e.amount)
      → IsInt64 e.amount
      → (debit parts.repository e.user_id e.amount s.wallet).0 ≡ err x
      → is_internal x ≡ true
      → e.amount ≤ℤ held s.wallet.repo e.user_id -ℤ e.amount
      → let s' = (handle_wallet_debit_requested parts now (wallet_debit_requested e) s).1 in
        let recovery = debit_recovery e x now in
        let again = debit_again p 2 woken in
        (s'.outside ≡ parts.publish recovery s.outside)
        × (handle_recovery_requested pays publish sleep delay ctx asked recovery t
            ≡ (ok tt, record t { outside = publish again t.outside }))
        × (held (handle_wallet_debit_requested parts later again s').1.wallet.repo e.user_id
            ≡ held s.wallet.repo e.user_id -ℤ e.amount -ℤ e.amount)
  unsaved_debit_is_taken_twice now asked woken later ctx e s t {x} {p} first found user amount slept
        hi hi' ai failed internal covered =
      (
        asks_recovery parts held laws now e s first failed internal,
        handle_recovery_requested_lem pays publish stored store sleep delay ctx asked woken _ t
              slept found
            ∙ ap
                (λ n.
                  (ok tt, record t { outside = publish (debit_again p (n + 1) woken) t.outside }))
                first,
        taken_again parts held laws now later e _ s user amount hi hi' ai failed internal covered,
      )
