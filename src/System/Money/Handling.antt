-- ===== src/System/Money/Handling.antt =====
-- What handling a delivery that may wait does (the subscriptions of cmd/web/main.go), whatever its
-- handler.
use mathlib.Core.List.{append-nil}
use challenge_senior.Prelude.{
  ◌+◌, ◌<◌, ◌^◌, String, ◌≡◌, ◌≢◌, refl, ap, sym, ◌∙◌, some, [], ◌∷◌, arith, eq_refl,
}
use challenge_senior.Prelude.Int.{ℤ, pos_part, neg_part}
use challenge_senior.Kit.Action.{Result, ok, err, panic}
use challenge_senior.Kit.Codec.{Codec}
use challenge_senior.Payment.{Payment}
use challenge_senior.Events.{Event, partition_key, payment_dlq}
use challenge_senior.Consumers.WalletEvent.{State, handle_wallet_debited, handle_wallet_refunded}
use challenge_senior.Consumers.NotificationEvent.{handle_payment_completed, handle_payment_failed}
use challenge_senior.Consumers.AuditEvent as Audits
use challenge_senior.System.{
  Outside, tell, App, Delivery, Subscriber, Moment, Parts, handle, waiting, again,
}
use challenge_senior.System.Money.{
  late, PaymentsById, IsDatabase, IsPayment, IsDue, carried, IsIdle, logs_debit, logs_refund,
  audits, shows, counts, notes_completed, notes_failed, idle, starting, debiting, rejecting, taken,
  charging, charged, uncharged, recovering, refunding,
}
use challenge_senior.System.Money.Effects.{lost, gained, Ends, handled, fails, settled, db_kept}
use challenge_senior.System.Money.Payments.{
  handle_charging, handle_starting, handle_rejecting, handle_charged, handle_uncharged,
  handle_taken, handle_recovering,
}
use challenge_senior.System.Money.Wallets.{handle_debiting, handle_refunding, named_amount}

module _ {c : Codec} {D G : Type 0} (parts : Parts c D G) (held : D → String → ℤ)
    (stored : D → PaymentsById) (seen : String → ℤ) where
  -- A handler that leaves the database and what waits alone.
  unmoved :
      (d : Delivery) (a : App c D G) (o : Result (Unit {0}) × App c D G)
      → ((u : String)
          → settled (stored a.db) u d + lost held seen d a.db u
            ≡ carried (stored a.db) u d + gained held seen d a.db u)
      → o.1.db ≡ a.db
      → o.1.outside.pending ≡ a.outside.pending
      → Ends parts held stored seen d a o
  unmoved d a (ok _, a') sum same kept = handled refl (
      db_kept parts held stored seen d a a' [] same (kept ∙ sym (append-nil _)) tt
        (λ u. omega (arith, sum u)) (λ i. omega arith))
  unmoved d a (err x, a') sum same kept = fails (λ q. cc) same kept
  unmoved d a (panic, a') sum same kept = fails (λ q. cc) same kept

  logs_keep :
      (evt : Event) (s : State D (Outside c))
      → ((handle_wallet_debited evt s).1 ≡ s) × ((handle_wallet_refunded evt s).1 ≡ s)
  unfolding handle_wallet_debited handle_wallet_refunded
  logs_keep (payment_dlq e) s = (refl, refl)
  logs_keep _ s = (refl, refl)

  notes_keep :
      (evt : Event) (t : Outside c)
      → ((handle_payment_completed (some tell) evt t).1.pending ≡ t.pending)
        × ((handle_payment_failed (some tell) evt t).1.pending ≡ t.pending)
  unfolding handle_payment_completed handle_payment_failed
  notes_keep (payment_dlq e) t = (refl, refl)
  notes_keep _ t = (refl, refl)

  idle_Ends :
      {h : Subscriber} (m : Moment) (evt : Event) (a : App c D G)
      → IsIdle h
      → Ends parts held stored seen
          (record { subscriber = h; evt = evt })
          a
          (handle (late seen parts) m h evt a)
  unfolding handle Audits.handle_any
  idle_Ends m evt a logs_debit =
      let s : State D (Outside c) = record {
        wallet = record { repo = a.db; metrics = a.metrics };
        outside = a.outside;
      } in
      unmoved _ a _ (λ u. refl) (ap (λ v. v.wallet.repo) (logs_keep evt s).0)
        (ap (λ v. v.outside.pending) (logs_keep evt s).0)
  idle_Ends m evt a logs_refund =
      let s : State D (Outside c) = record {
        wallet = record { repo = a.db; metrics = a.metrics };
        outside = a.outside;
      } in
      unmoved _ a _ (λ u. refl) (ap (λ v. v.wallet.repo) (logs_keep evt s).1)
        (ap (λ v. v.outside.pending) (logs_keep evt s).1)
  idle_Ends m evt a audits = unmoved _ a _ (λ u. refl) refl refl
  idle_Ends m evt a shows = unmoved _ a _ (λ u. refl) refl refl
  idle_Ends m evt a counts = unmoved _ a _ (λ u. refl) refl refl
  idle_Ends m evt a notes_completed = unmoved _ a _ (λ u. refl) refl (notes_keep evt a.outside).0
  idle_Ends m evt a notes_failed = unmoved _ a _ (λ u. refl) refl (notes_keep evt a.outside).1

  pub again_ok :
      (d : Delivery) (o : Result (Unit {0}) × App c D G) → o.0 ≡ ok tt → again parts d o ≡ o.1
  again_ok d (ok _, a) e = refl
  again_ok d (err x, a) e = cc
  again_ok d (panic, a) e = cc

  pub again_fails :
      (d : Delivery) (o : Result (Unit {0}) × App c D G)
      → o.0 ≢ ok tt
      → again parts d o ≡ waiting parts (d ∷ o.1.outside.pending) o.1
  again_fails d (ok tt, a) ne = absurd (ne refl)
  again_fails d (err x, a) ne = refl
  again_fails d (panic, a) ne = refl

  module _ (law : IsDatabase parts.wallets parts.payments held stored) where
    -- The effect of a delivery that may wait, in a sound state.
    pub due_Ends :
        {h : Subscriber} {evt : Event} (m : Moment) (a : App c D G)
        → ((i : String) (p : Payment) → stored a.db i ≡ some p → IsPayment i p)
        → ((u : String) → neg_part (held a.db u) ≡ 0)
        → ((u : String)
            → pos_part (held a.db u)
                + carried (stored a.db) u (record { subscriber = h; evt = evt })
                + gained held seen (record { subscriber = h; evt = evt }) a.db u
              < 2 ^ 63)
        → ((u : String) → neg_part (seen u) ≡ 0)
        → IsDue (stored a.db) h evt
        → Ends parts held stored seen
            (record { subscriber = h; evt = evt })
            a
            (handle (late seen parts) m h evt a)
    unfolding partition_key
    due_Ends m a pays solvent room from (idle evt x) = idle_Ends m evt a x
    due_Ends m a pays solvent room from (starting e f u v) =
        handle_starting parts held stored seen m e a f u v
    due_Ends m a pays solvent room from (debiting e {p} f u v) =
        let own = pays e.payment_id p f in
        handle_debiting parts held stored seen law m e a f (rw (u, v) own.good) (rw v own.fits) u v
          (solvent e.user_id) (omega (arith, room e.user_id))
    due_Ends m a pays solvent room from (rejecting e {p} f) =
        handle_rejecting parts held stored seen law m e a f (pays e.payment_id p f).own
    due_Ends m a pays solvent room from (taken e {p} f) =
        handle_taken parts held stored seen law m e a f (pays e.payment_id p f).own
    due_Ends m a pays solvent room from (charging e f) =
        handle_charging parts held stored seen m e a f
    due_Ends m a pays solvent room from (charged e {p} f) =
        handle_charged parts held stored seen law m e a f (pays e.payment_id p f).own
    due_Ends m a pays solvent room from (uncharged e {p} f) =
        handle_uncharged parts held stored seen law m e a f (pays e.payment_id p f).own
    due_Ends m a pays solvent room from (recovering e {p} f action) =
        handle_recovering parts held stored seen law m e a f (pays e.payment_id p f).own action
    due_Ends m a pays solvent room from (refunding e {p} f u v) =
        let own = pays e.payment_id p f in
        handle_refunding parts held stored seen law m e a f (rw (u, v) own.good) u v
          (from e.user_id)
          (omega (
            arith,
            rw
                (
                  named_amount (stored a.db) e.payment_id e.user_id e.user_id e.amount f u v,
                  eq_refl e.user_id,
                )
                at (room e.user_id),
          ))
