-- ===== src/Consumers/WalletEvent/Debits.antt =====
-- What a request to debit or to refund comes to (cmd/consumers/handlers/wallet_event.go), over
-- any repository that keeps the wallet's contract.
use challenge_senior.Prelude.{
  ℕ, String, true, false, ◌&&◌, ◌≡◌, refl, sym, ap, ◌∙◌, ◌⊎◌, inl, inr, Option, if◌then◌else◌, eqb,
  arith,
}
use challenge_senior.Prelude.Int.{ℤ, ◌-ℤ◌, ◌≤ℤ◌}
use challenge_senior.Prelude.Int64.{IsInt64}
use challenge_senior.Kit.Errors.{Error, sentinel, is_internal, insufficient_funds, is}
use challenge_senior.Kit.Action.{Result, ok, err, panic}
use challenge_senior.Kit.Observability.{Metrics}
use challenge_senior.Wallet.{Wallet, debit}
use challenge_senior.Wallet.Laws.{IsLedger, written}
use challenge_senior.Wallet.Service.{is_bad, bad_request, debit_lem, Wrote, Wrote-held}
use challenge_senior.Wallet.Safety.{debit_unsaved, written_self}
use challenge_senior.Events.{Event, WalletDebitRequested, wallet_debit_requested}
use challenge_senior.Consumers.WalletEvent.{
  State, Parts, debit_recovery, debit_rejected, debited, send, answer_debit,
  handle_wallet_debit_requested,
}

-- The event that answers a debit which failed with `x`.
abbrev pub answer : WalletDebitRequested → Error → ℕ → Event
answer e x now =
    if is_internal x && eqb e.attempt 1 then debit_recovery e x now else debit_rejected e x now

module _ {S T : Type 0} (parts : Parts S T) (held : S → String → ℤ)
    (laws : IsLedger parts.repository held) where
  -- The request is answered by one event, seen at the balance of user `j`. Either the debit was
  -- refused, and the wallet is as it was; or the user's balance fell by the amount, and the answer
  -- is `wallet.debited`; or it fell, and the answer is that of an internal error.
  abbrev pub Answered : ℕ → WalletDebitRequested → State S T → String → State S T → Type 0
  Answered now e s j s' =
      ((s'.wallet ≡ s.wallet)
        × ((s'.outside ≡ parts.publish (debit_rejected e bad_request now) s.outside)
            ⊎ (s'.outside
                ≡ parts.publish (debit_rejected e (sentinel insufficient_funds) now) s.outside)))
      ⊎ ((held s'.wallet.repo j
            ≡ written (held s.wallet.repo) e.user_id (held s.wallet.repo e.user_id -ℤ e.amount) j)
          × ((s'.outside ≡ parts.publish (debited e now) s.outside)
              ⊎ ((x : Error) × (is_internal x ≡ true)
                  × (s'.outside ≡ parts.publish (answer e x now) s.outside))))

  answer_debit-outside :
      (now : ℕ) (e : WalletDebitRequested) (x : Error) (s : State S T)
      → answer_debit parts now e (err x) s ≡ (ok tt, send parts (answer e x now) s)
  answer_debit-outside now e x s = ground arith

  taken :
      (now : ℕ) (e : WalletDebitRequested) (s : State S T) (j : String) (m : Option Metrics)
      (r : Result (Unit {0}) × Wallet S)
      → Wrote held e.user_id (held s.wallet.repo e.user_id -ℤ e.amount) m s.wallet j r
      → ((answer_debit parts now e r.0 (record s { wallet = r.1 })).0 ≡ ok tt)
        × Answered now e s j (answer_debit parts now e r.0 (record s { wallet = r.1 })).1
  taken now e s j m (ok _, w) h = (refl, inr (h.0, inl refl))
  taken now e s j m (err x, w) h =
      let said = answer_debit-outside now e x (record s { wallet = w }) in
      (rw said, rw said (inr (h.0, inr (x, h.2, refl))))
  taken now e s j m (panic, w) h = absurd h

  -- Over any wallet repository that keeps its contract, and where the balance and the amount
  -- are int64s, the handler of a debit request returns no error and publishes one event: a
  -- rejection with the wallet as it was, or, with the amount taken from that user alone, a
  -- success or the answer to an internal error.
  pub handle_wallet_debit_requested_lem :
      (now : ℕ) (e : WalletDebitRequested) (s : State S T) (j : String)
      → IsInt64 (held s.wallet.repo e.user_id)
      → IsInt64 e.amount
      → ((handle_wallet_debit_requested parts now (wallet_debit_requested e) s).0 ≡ ok tt)
        × Answered now e s j
            (handle_wallet_debit_requested parts now (wallet_debit_requested e) s).1
  unfolding handle_wallet_debit_requested
  handle_wallet_debit_requested_lem now e s j hi ai =
      elim (debit_lem parts.repository held laws e.user_id e.amount s.wallet j hi ai) [
        | inl (bad, refused) ↦ rw refused (unfold is_internal is in (refl, inl (refl, inl refl)))
        | inr (inl (good, short, refused)) ↦
            rw refused (unfold is_internal is in (refl, inl (refl, inr refl)))
        | inr (inr (good, covered, wrote)) ↦
            taken now e s j _ (debit parts.repository e.user_id e.amount s.wallet) wrote
      ]

  answer_debit-wallet :
      (now : ℕ) (e : WalletDebitRequested) (r : Result (Unit {0})) (s : State S T)
      → (answer_debit parts now e r s).1.wallet ≡ s.wallet
  answer_debit-wallet now e (ok _) s = refl
  answer_debit-wallet now e (err x) s = rw (answer_debit-outside now e x s)
  answer_debit-wallet now e panic s = refl

  pub handled_wallet :
      (now : ℕ) (e : WalletDebitRequested) (s : State S T)
      → (handle_wallet_debit_requested parts now (wallet_debit_requested e) s).1.wallet
        ≡ (debit parts.repository e.user_id e.amount s.wallet).1
  unfolding handle_wallet_debit_requested
  handled_wallet now e s =
      answer_debit-wallet now e (debit parts.repository e.user_id e.amount s.wallet).0 _

  covered_again :
      (u : String) (a : ℤ) (w : Wallet S)
      → IsInt64 (held w.repo u)
      → IsInt64 a
      → is_bad u a ≡ false
      → a ≤ℤ held w.repo u
      → held (debit parts.repository u a w).1.repo u ≡ held w.repo u -ℤ a
  covered_again u a w hi ai good covered =
      elim (debit_lem parts.repository held laws u a w u hi ai) [
        | inl (bad, refused) ↦ absurd (cc (bad, good))
        | inr (inl (_, short, refused)) ↦ absurd (omega (arith, short, covered))
        | inr (inr (_, _, wrote)) ↦
            Wrote-held held _ _ _ _ _ _ wrote ∙ written_self (held w.repo) u (held w.repo u -ℤ a)
      ]

  internal_is_good :
      (u : String) (a : ℤ) (w : Wallet S) {x : Error}
      → IsInt64 (held w.repo u)
      → IsInt64 a
      → (debit parts.repository u a w).0 ≡ err x
      → is_internal x ≡ true
      → is_bad u a ≡ false
  unfolding is_internal
  internal_is_good u a w hi ai failed internal =
      elim (debit_lem parts.repository held laws u a w u hi ai) [
        | inl (bad, e) ↦ absurd (cc (sym failed ∙ ap (λ p. p.0) e, internal))
        | inr (inl (good, _, _)) ↦ good
        | inr (inr (good, _, _)) ↦ good
      ]

  -- A debit that reported an internal error has taken its amount, and a second request for the same
  -- user and amount takes it once more, if what is left covers it.
  pub taken_again :
      (now later : ℕ) (e e' : WalletDebitRequested) (s : State S T) {x : Error}
      → e'.user_id ≡ e.user_id
      → e'.amount ≡ e.amount
      → IsInt64 (held s.wallet.repo e.user_id)
      → IsInt64 (held s.wallet.repo e.user_id -ℤ e.amount)
      → IsInt64 e.amount
      → (debit parts.repository e.user_id e.amount s.wallet).0 ≡ err x
      → is_internal x ≡ true
      → e.amount ≤ℤ held s.wallet.repo e.user_id -ℤ e.amount
      → let s' = (handle_wallet_debit_requested parts now (wallet_debit_requested e) s).1 in
        held
          (handle_wallet_debit_requested parts later (wallet_debit_requested e') s').1.wallet.repo
          e.user_id
        ≡ held s.wallet.repo e.user_id -ℤ e.amount -ℤ e.amount
  taken_again now later e e' s {x} user amount hi hi' ai failed internal covered =
      let once =
        debit_unsaved parts.repository held laws e.user_id e.amount s.wallet hi ai failed
          internal in
      let good = internal_is_good e.user_id e.amount s.wallet hi ai failed internal in
      rw (handled_wallet later e' _, handled_wallet now e s, user, amount)
        (covered_again e.user_id e.amount (debit parts.repository e.user_id e.amount s.wallet).1
            (rw once hi') ai good (rw once covered)
          ∙ rw once)

  pub asks_recovery :
      (now : ℕ) (e : WalletDebitRequested) (s : State S T) {x : Error}
      → e.attempt ≡ 1
      → (debit parts.repository e.user_id e.amount s.wallet).0 ≡ err x
      → is_internal x ≡ true
      → (handle_wallet_debit_requested parts now (wallet_debit_requested e) s).1.outside
        ≡ parts.publish (debit_recovery e x now) s.outside
  unfolding handle_wallet_debit_requested
  asks_recovery now e s first failed internal = rw (failed, internal, first)
