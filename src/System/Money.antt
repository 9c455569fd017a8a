-- ===== src/System/Money.antt =====
-- Where a user's money is while deliveries wait (the subscriptions of cmd/web/main.go): what a
-- delivery carries of it, and which deliveries may wait.
pub mod Turns
pub mod Effects
pub mod Payments
pub mod Wallets
pub mod Requests
pub mod Runs
pub mod Handling
pub mod Deliveries
pub mod Growth
pub mod Conservation
pub mod Waiting
pub mod Endings
use challenge_senior.Prelude.{
  ℕ, ◌+◌, ◌-◌, String, Bool, true, false, ◌≡◌, refl, ap, ◌∙◌, Option, none, some, List, [], ◌∷◌,
  ◌++◌, if◌then◌else◌, ◌==◌, arith,
}
use challenge_senior.Prelude.Int.{ℤ, pos, pos_part, ◌≤ℤ◌, ◌<ℤ◌}
use challenge_senior.Prelude.Int64.{IsInt64}
use challenge_senior.Kit.Action.{ok}
use challenge_senior.Kit.Codec.{Codec}
use challenge_senior.Wallet.{Repository}
use challenge_senior.Wallet.Laws.{IsLedger}
use challenge_senior.Wallet.Service.{is_bad}
use challenge_senior.Payment.{Payment}
use challenge_senior.Payment as Pay
use challenge_senior.Payment.Laws.{IsStore}
use challenge_senior.Payment.Marks.{SamePayment}
use challenge_senior.Events.{
  Event, PaymentInitialized, WalletDebited, WalletDebitRejected, WalletDebitRequested,
  WalletRefundRequested, PaymentChargeRequested, PaymentChargeSucceeded, PaymentChargeFailed,
  RecoveryRequested, payment_initialized, wallet_debited, wallet_debit_rejected,
  wallet_refund_requested, payment_charge_requested, payment_charge_succeeded,
  payment_charge_failed, recovery_requested, partition_key,
}
use challenge_senior.Events as Events
use challenge_senior.System.{
  Subscriber, Delivery, Parts, gateway_charge_requested, result_charge_succeeded,
  result_charge_failed, recovery_recovery_requested, wallet_payment_initialized,
  wallet_debit_requested, wallet_wallet_debited, wallet_wallet_refunded, flow_debit_rejected,
  flow_wallet_debited, audit_any, projector_apply, metrics_any, notification_completed,
  notification_failed,
}
use challenge_senior.System as Sys

-- The stored payments, by their ids.
abbrev pub PaymentsById : Type 0
PaymentsById = String → Option Payment

-- What a payment comes to for user `u`.
abbrev pub amount_for : String → Option Payment → ℕ
amount_for u none = 0
amount_for u (some p) = if p.user_id == u then pos_part p.amount else 0

-- The handlers whose deliveries stand for money that has left the wallet.
abbrev pub carries : Subscriber → Bool
carries gateway_charge_requested = true
carries result_charge_succeeded = true
carries result_charge_failed = true
carries recovery_recovery_requested = true
carries Sys.wallet_refund_requested = true
carries flow_wallet_debited = true
carries _ = false

-- What a delivery carries of the money of user `u`: the stored amount of its payment.
abbrev pub carried : PaymentsById → String → Delivery → ℕ
carried st u d = if carries d.subscriber then amount_for u (st (partition_key d.evt)) else 0

abbrev pub in_flight : PaymentsById → String → List Delivery → ℕ
in_flight st u [] = 0
in_flight st u (d ∷ ds) = carried st u d + in_flight st u ds

-- The handlers that move no payment on.
pub data IsIdle : Subscriber → Type 0 where
  logs_debit : IsIdle wallet_wallet_debited
  logs_refund : IsIdle wallet_wallet_refunded
  audits : IsIdle audit_any
  shows : IsIdle projector_apply
  counts : IsIdle metrics_any
  notes_completed : IsIdle notification_completed
  notes_failed : IsIdle notification_failed

-- A delivery that may wait: for a handler that is idle, or of an event of a stored payment, for
-- its user and amount where the event names them.
pub data IsDue (st : PaymentsById) : Subscriber → Event → Type 0 where
  idle : {h : Subscriber} (evt : Event) → IsIdle h → IsDue st h evt
  starting :
      (e : PaymentInitialized) {p : Payment}
      → st e.payment_id ≡ some p
      → e.user_id ≡ p.user_id
      → e.amount ≡ p.amount
      → IsDue st wallet_payment_initialized (payment_initialized e)
  debiting :
      (e : WalletDebitRequested) {p : Payment}
      → st e.payment_id ≡ some p
      → e.user_id ≡ p.user_id
      → e.amount ≡ p.amount
      → IsDue st wallet_debit_requested (Events.wallet_debit_requested e)
  rejecting :
      (e : WalletDebitRejected) {p : Payment}
      → st e.payment_id ≡ some p
      → IsDue st flow_debit_rejected (wallet_debit_rejected e)
  taken :
      (e : WalletDebited) {p : Payment}
      → st e.payment_id ≡ some p
      → IsDue st flow_wallet_debited (wallet_debited e)
  charging :
      (e : PaymentChargeRequested) {p : Payment}
      → st e.payment_id ≡ some p
      → IsDue st gateway_charge_requested (payment_charge_requested e)
  charged :
      (e : PaymentChargeSucceeded) {p : Payment}
      → st e.payment_id ≡ some p
      → IsDue st result_charge_succeeded (payment_charge_succeeded e)
  uncharged :
      (e : PaymentChargeFailed) {p : Payment}
      → st e.payment_id ≡ some p
      → IsDue st result_charge_failed (payment_charge_failed e)
  recovering :
      (e : RecoveryRequested) {p : Payment}
      → st e.payment_id ≡ some p
      → e.action ≡ "payment.charge"
      → IsDue st recovery_recovery_requested (recovery_requested e)
  refunding :
      (e : WalletRefundRequested) {p : Payment}
      → st e.payment_id ≡ some p
      → e.user_id ≡ p.user_id
      → e.amount ≡ p.amount
      → IsDue st Sys.wallet_refund_requested (wallet_refund_requested e)

abbrev pub AllDue : PaymentsById → List Delivery → Type 0
AllDue st [] = Unit {0}
AllDue st (d ∷ ds) = IsDue st d.subscriber d.evt × AllDue st ds

-- A payment that stands under `i`: it is the one that was asked for under `i`.
pub record IsPayment (i : String) (p : Payment) : Type 0 where
  pub own : p.id ≡ i
  pub good : is_bad p.user_id p.amount ≡ false
  pub fits : IsInt64 p.amount

-- Nothing, or the same payment for the same user and amount.
abbrev pub IsAlike : Option Payment → Option Payment → Type 0
IsAlike none none = Unit {0}
IsAlike (some p) (some q) = SamePayment p q
IsAlike _ _ = ⊥

-- `Credit` and `Refund` read a balance and then write it, with no lock around both: the call may go on
-- long after its read, while others write. These are the parts as such a call finds them, where
-- `seen` is what its read of a user's balance has returned.
abbrev pub late : {c : Codec} {D G : Type 0} → (String → ℤ) → Parts c D G → Parts c D G
late seen parts = record parts {
  wallets = record parts.wallets { get_balance = λ u d. (ok (seen u), d) };
}

-- Whether a delivery writes a balance of user `u` that it has read.
abbrev pub rewrites : Subscriber → Event → String → Bool
rewrites Sys.wallet_refund_requested (wallet_refund_requested e) u = e.user_id == u
rewrites _ _ u = false

-- What such a write undoes: of what the user holds, what came in since the read, and what went out.
abbrev pub lost_by : Bool → ℤ → ℤ → ℕ
lost_by writes holds seen = if writes then pos_part holds - pos_part seen else 0

abbrev pub gained_by : Bool → ℤ → ℤ → ℕ
gained_by writes holds seen = if writes then pos_part seen - pos_part holds else 0

-- What the database has to be: balances and payments that do not touch each other, and whose
-- writes succeed.
pub record IsDatabase {D : Type 0} (wallets : Repository D) (payments : Pay.Repository D)
    (held : D → String → ℤ) (stored : D → PaymentsById) : Type 0 where
  pub ledger : IsLedger wallets held
  pub store : IsStore payments stored
  pub save_apart : (p : Payment) (d : D) (u : String) → held (payments.save p d).1 u ≡ held d u
  pub set_apart :
      (u : String) (a : ℤ) (d : D) (i : String)
      → stored (wallets.set_balance u a d).1 i ≡ stored d i
  pub debit_apart :
      (u : String) (a : ℤ) (d : D) (i : String)
      → stored (wallets.debit_if_sufficient_funds u a d).1 i ≡ stored d i
  pub debit_saved :
      (u : String) (a : ℤ) (d : D)
      → pos 0 <ℤ a
      → a ≤ℤ held d u
      → (wallets.debit_if_sufficient_funds u a d).0 ≡ ok tt
  pub set_saved : (u : String) (a : ℤ) (d : D) → (wallets.set_balance u a d).0 ≡ ok tt

IsAlike-some :
    {o : Option Payment} {p : Payment} (o' : Option Payment)
    → o ≡ some p
    → IsAlike o o'
    → (q : Payment) × (o' ≡ some q) × SamePayment p q
IsAlike-some none e h = absurd (rw e at h)
IsAlike-some (some q) e h = (q, refl, rw e at h)

-- Every payment of `st` is one of `st'`, but for its status.
abbrev pub IsKept : PaymentsById → PaymentsById → Type 0
IsKept st st' =
    (i : String) (p : Payment) → st i ≡ some p → (q : Payment) × (st' i ≡ some q) × SamePayment p q

pub IsAlike-IsKept :
    (st st' : PaymentsById) → ((i : String) → IsAlike (st i) (st' i)) → IsKept st st'
IsAlike-IsKept st st' alike i p f = IsAlike-some (st' i) f (alike i)

-- Deliveries that may wait may still wait, and carry the same, once payments have changed their
-- status or have been added.
module _ (st st' : PaymentsById) (kept : IsKept st st') where
  IsDue-kept : {h : Subscriber} {evt : Event} → IsDue st h evt → IsDue st' h evt
  IsDue-kept (idle evt x) = idle evt x
  IsDue-kept (starting e f u a) =
      let (q, g, s) = kept _ _ f in starting e g (rw s.same_user u) (rw s.same_amount a)
  IsDue-kept (debiting e f u a) =
      let (q, g, s) = kept _ _ f in debiting e g (rw s.same_user u) (rw s.same_amount a)
  IsDue-kept (rejecting e f) = rejecting e (kept _ _ f).1
  IsDue-kept (taken e f) = taken e (kept _ _ f).1
  IsDue-kept (charging e f) = charging e (kept _ _ f).1
  IsDue-kept (charged e f) = charged e (kept _ _ f).1
  IsDue-kept (uncharged e f) = uncharged e (kept _ _ f).1
  IsDue-kept (recovering e f a) = recovering e (kept _ _ f).1 a
  IsDue-kept (refunding e f u a) =
      let (q, g, s) = kept _ _ f in refunding e g (rw s.same_user u) (rw s.same_amount a)

  amount_kept :
      (u i : String) {p : Payment} → st i ≡ some p → amount_for u (st' i) ≡ amount_for u (st i)
  amount_kept u i f = let (q, g, s) = kept _ _ f in rw (f, g, s.same_user, s.same_amount)

  idle_carries : {h : Subscriber} (u : String) (evt : Event) → IsIdle h → carries h ≡ false
  idle_carries u evt logs_debit = refl
  idle_carries u evt logs_refund = refl
  idle_carries u evt audits = refl
  idle_carries u evt shows = refl
  idle_carries u evt counts = refl
  idle_carries u evt notes_completed = refl
  idle_carries u evt notes_failed = refl

  carried-kept :
      {h : Subscriber} {evt : Event} (u : String)
      → IsDue st h evt
      → carried st' u (record { subscriber = h; evt = evt })
        ≡ carried st u (record { subscriber = h; evt = evt })
  unfolding partition_key
  carried-kept u (idle evt x) = rw (idle_carries u evt x)
  carried-kept u (starting e f _ _) = refl
  carried-kept u (debiting e f _ _) = refl
  carried-kept u (rejecting e f) = refl
  carried-kept u (taken e f) = amount_kept u e.payment_id f
  carried-kept u (charging e f) = amount_kept u e.payment_id f
  carried-kept u (charged e f) = amount_kept u e.payment_id f
  carried-kept u (uncharged e f) = amount_kept u e.payment_id f
  carried-kept u (recovering e f _) = amount_kept u e.payment_id f
  carried-kept u (refunding e f _ _) = amount_kept u e.payment_id f

  pub in_flight-kept :
      (u : String) (ds : List Delivery) → AllDue st ds → in_flight st' u ds ≡ in_flight st u ds
  in_flight-kept u [] h = refl
  in_flight-kept u (d ∷ ds) (x, xs) = rw (carried-kept u x, in_flight-kept u ds xs)

  pub AllDue-kept : (ds : List Delivery) → AllDue st ds → AllDue st' ds
  AllDue-kept [] h = tt
  AllDue-kept (d ∷ ds) (x, xs) = (IsDue-kept x, AllDue-kept ds xs)

module _ (st : PaymentsById) where
  pub in_flight-append :
      (u : String) (ds es : List Delivery)
      → in_flight st u (ds ++ es) ≡ in_flight st u ds + in_flight st u es
  in_flight-append u [] es = omega arith
  in_flight-append u (d ∷ ds) es = omega (arith, in_flight-append u ds es)

  pub AllDue-append : (ds es : List Delivery) → AllDue st ds → AllDue st es → AllDue st (ds ++ es)
  AllDue-append [] es h k = k
  AllDue-append (d ∷ ds) es (x, xs) k = (x, AllDue-append ds es xs k)

  pub AllDue-split : (ds es : List Delivery) → AllDue st (ds ++ es) → AllDue st ds × AllDue st es
  AllDue-split [] es h = (tt, h)
  AllDue-split (d ∷ ds) es (x, xs) = let (l, r) = AllDue-split ds es xs in ((x, l), r)
