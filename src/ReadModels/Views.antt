-- ===== src/ReadModels/Views.antt =====
-- What the views of internal/readmodels/projector.go show after any sequence of events.
use challenge_senior.Prelude.{
  String, true, ◌≡◌, refl, List, [], ◌∷◌, if◌then◌else◌, ◌==◌, eq_iff, Bool-cases, inl, inr,
}
use challenge_senior.Prelude.Int.{ℤ, pos, ◌+ℤ◌, ◌-ℤ◌}
use challenge_senior.Prelude.Int64.{wrap64, add64-wrap64, sub64-wrap64}
use challenge_senior.Prelude.GoMap.{index, index-insert}
use challenge_senior.Events.{Event, wallet_credited, wallet_debited, wallet_refunded}
use challenge_senior.ReadModels.{
  Projector, WalletView, put_wallet, new_projector, zero_wallet, apply, apply_wallet_credited,
  apply_wallet_debited, apply_wallet_refunded, apply_payment_created, apply_payment_initialized,
  apply_payment_pending, apply_payment_rejected, apply_payment_succeeded, apply_payment_failed,
}
use challenge_senior.ReadModels.Replay.{apply_all}

-- The balance that the view of a user shows; 0 where there is none.
pub shown : String → Projector → ℤ
shown u p = (index zero_wallet u p.wallets).balance

-- What an event does to the money of user `u`, in the integers.
abbrev pub moved : String → Event → ℤ → ℤ
moved u (wallet_credited e) x = if e.user_id == u then x +ℤ e.amount else x
moved u (wallet_debited e) x = if e.user_id == u then x -ℤ e.amount else x
moved u (wallet_refunded e) x = if e.user_id == u then x +ℤ e.amount else x
moved u _ x = x

-- Credits and refunds less debits, over a sequence of events, from `x` on.
abbrev pub net : String → List Event → ℤ → ℤ
net u [] x = x
net u (e ∷ es) x = net u es (moved u e x)

shown-put_wallet :
    (u k : String) (f : WalletView → WalletView) (p : Projector)
    → shown u (put_wallet k f p)
      ≡ (if k == u then (f (index zero_wallet k p.wallets)).balance else shown u p)
unfolding shown
shown-put_wallet u k f p = elim (Bool-cases (k == u)) [
  | inl same ↦ rw (shown, index-insert, same)
  | inr other ↦ rw (shown, index-insert, other)
]

shown_same :
    (u k : String) (p : Projector)
    → (k == u) ≡ true
    → (index zero_wallet k p.wallets).balance ≡ shown u p
unfolding shown
shown_same u k p h = rw ((eq_iff k u).0 h)

shown-apply :
    (u : String) (e : Event) (p : Projector) (x : ℤ)
    → shown u p ≡ wrap64 x
    → shown u (apply e p) ≡ wrap64 (moved u e x)
unfolding shown apply apply_wallet_credited apply_wallet_debited apply_wallet_refunded
    apply_payment_created apply_payment_initialized apply_payment_pending apply_payment_rejected
    apply_payment_succeeded apply_payment_failed
shown-apply u (wallet_credited e) p x h = elim (Bool-cases (e.user_id == u)) [
  | inl same ↦
      rw (shown-put_wallet u e.user_id, same, shown_same u e.user_id p same, h)
        (add64-wrap64 x e.amount)
  | inr other ↦ rw (shown-put_wallet u e.user_id, other) h
]
shown-apply u (wallet_debited e) p x h = elim (Bool-cases (e.user_id == u)) [
  | inl same ↦
      rw (shown-put_wallet u e.user_id, same, shown_same u e.user_id p same, h)
        (sub64-wrap64 x e.amount)
  | inr other ↦ rw (shown-put_wallet u e.user_id, other) h
]
shown-apply u (wallet_refunded e) p x h = elim (Bool-cases (e.user_id == u)) [
  | inl same ↦
      rw (shown-put_wallet u e.user_id, same, shown_same u e.user_id p same, h)
        (add64-wrap64 x e.amount)
  | inr other ↦ rw (shown-put_wallet u e.user_id, other) h
]
shown-apply u _ p x h = h

shown-apply_all :
    (u : String) (es : List Event) (p : Projector) (x : ℤ)
    → shown u p ≡ wrap64 x
    → shown u (apply_all es p) ≡ wrap64 (net u es x)
unfolding apply_all
shown-apply_all u [] p x h = h
shown-apply_all u (e ∷ es) p x h =
    shown-apply_all u es (apply e p) (moved u e x) (shown-apply u e p x h)

-- After any events, the view of a user's wallet shows the int64 of what the events credited and
-- refunded to that user less what they debited, whatever events of others and of payments stand
-- between.
pub shown-net :
    (u : String) (es : List Event)
    → shown u (apply_all es new_projector) ≡ wrap64 (net u es (pos 0))
shown-net u es =
    shown-apply_all u es new_projector (pos 0) (unfold new_projector shown index wrap64 in refl)
