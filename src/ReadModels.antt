-- ===== src/ReadModels.antt =====
-- internal/readmodels/projector.go: the views of payments and wallets, from events and from the
-- records of the event store.
pub mod Replay
pub mod Views
use challenge_senior.Prelude.{
  ℕ, String, Bool, ◌⊎◌, inl, inr, Option, none, some, List, [], ◌∷◌, if◌then◌else◌, ◌==◌,
}
use challenge_senior.Prelude.Int.{ℤ, pos}
use challenge_senior.Prelude.Int64.{add64, sub64}
use challenge_senior.Prelude.GoMap.{GoMap, lookup, index, insert}
use challenge_senior.Kit.Action.{Result, ok, err, panic, Action, ◌>>=◌, ◌>>◌}
use challenge_senior.Kit.MockClient.{internal_error}
use challenge_senior.Kit.Codec.{Record, Codec}
use challenge_senior.Kit.Store.{Store, all}
use challenge_senior.Payment.{
  Status, status_initialized, status_pending, status_rejected, status_succeeded, status_failed,
}
use challenge_senior.Events.{
  Event, PaymentCreated, PaymentInitialized, PaymentPending, PaymentRejected, PaymentSucceeded,
  PaymentFailed, WalletCredited, WalletDebited, WalletRefunded, payment_created,
  payment_initialized, payment_pending, payment_rejected, payment_succeeded, payment_failed,
  wallet_credited, wallet_debited, wallet_refunded,
}

pub record PaymentView : Type 0 where
  pub payment_id : String
  pub user_id : String
  pub amount : ℤ
  pub service : String
  pub status : Status
  pub reason : String
  pub gateway_id : String
  pub updated_at : ℕ

pub record WalletView : Type 0 where
  pub user_id : String
  pub balance : ℤ
  pub updated_at : ℕ

pub record Projector : Type 0 where
  pub payments : GoMap PaymentView
  pub wallets : GoMap WalletView

unfoldable pub new_projector : Projector
new_projector = record { payments = []; wallets = [] }

-- The zero values that a missing key reads as; the zero time is 0.
abbrev pub zero_payment : PaymentView
zero_payment = record {
  payment_id = "";
  user_id = "";
  amount = pos 0;
  service = "";
  status = "";
  reason = "";
  gateway_id = "";
  updated_at = 0;
}

abbrev pub zero_wallet : WalletView
zero_wallet = record { user_id = ""; balance = pos 0; updated_at = 0 }

unfoldable pub get_payment : String → Projector → Option PaymentView
get_payment payment p = lookup payment p.payments

unfoldable pub get_wallet : String → Projector → Option WalletView
get_wallet user p = lookup user p.wallets

abbrev pub put_payment : String → (PaymentView → PaymentView) → Projector → Projector
put_payment payment f p = record p {
  payments = insert payment (f (index zero_payment payment p.payments)) p.payments;
}

abbrev pub put_wallet : String → (WalletView → WalletView) → Projector → Projector
put_wallet user f p = record p {
  wallets = insert user (f (index zero_wallet user p.wallets)) p.wallets;
}

unfoldable pub apply_payment_created : PaymentCreated → Projector → Projector
apply_payment_created e = put_payment e.payment_id (λ cur. record cur {
  payment_id = e.payment_id;
  user_id = e.user_id;
  amount = e.amount;
  service = e.service;
  status = if cur.status == "" then status_initialized else cur.status;
  updated_at = e.at;
})

unfoldable pub apply_payment_initialized : PaymentInitialized → Projector → Projector
apply_payment_initialized e = put_payment e.payment_id (λ cur. record cur {
  payment_id = e.payment_id;
  user_id = e.user_id;
  amount = e.amount;
  service = e.service;
  status = status_initialized;
  updated_at = e.at;
})

unfoldable pub apply_payment_pending : PaymentPending → Projector → Projector
apply_payment_pending e = put_payment e.payment_id (λ cur. record cur {
  payment_id = e.payment_id;
  user_id = e.user_id;
  status = status_pending;
  updated_at = e.at;
})

unfoldable pub apply_payment_rejected : PaymentRejected → Projector → Projector
apply_payment_rejected e = put_payment e.payment_id (λ cur. record cur {
  payment_id = e.payment_id;
  user_id = e.user_id;
  status = status_rejected;
  reason = e.reason;
  updated_at = e.at;
})

unfoldable pub apply_payment_succeeded : PaymentSucceeded → Projector → Projector
apply_payment_succeeded e = put_payment e.payment_id (λ cur. record cur {
  payment_id = e.payment_id;
  user_id = e.user_id;
  status = status_succeeded;
  gateway_id = e.gateway_id;
  updated_at = e.at;
})

unfoldable pub apply_payment_failed : PaymentFailed → Projector → Projector
apply_payment_failed e = put_payment e.payment_id (λ cur. record cur {
  payment_id = e.payment_id;
  user_id = e.user_id;
  status = status_failed;
  reason = e.reason;
  updated_at = e.at;
})

unfoldable pub apply_wallet_debited : WalletDebited → Projector → Projector
apply_wallet_debited e = put_wallet e.user_id (λ cur. record cur {
  user_id = e.user_id;
  balance = sub64 cur.balance e.amount;
  updated_at = e.at;
})

unfoldable pub apply_wallet_credited : WalletCredited → Projector → Projector
apply_wallet_credited e = put_wallet e.user_id (λ cur. record cur {
  user_id = e.user_id;
  balance = add64 cur.balance e.amount;
  updated_at = e.at;
})

unfoldable pub apply_wallet_refunded : WalletRefunded → Projector → Projector
apply_wallet_refunded e = put_wallet e.user_id (λ cur. record cur {
  user_id = e.user_id;
  balance = add64 cur.balance e.amount;
  updated_at = e.at;
})

-- `Apply`, which always returns nil.
unfoldable pub apply : Event → Projector → Projector
apply (payment_created e) p = apply_payment_created e p
apply (payment_initialized e) p = apply_payment_initialized e p
apply (payment_pending e) p = apply_payment_pending e p
apply (payment_rejected e) p = apply_payment_rejected e p
apply (payment_succeeded e) p = apply_payment_succeeded e p
apply (payment_failed e) p = apply_payment_failed e p
apply (wallet_credited e) p = apply_wallet_credited e p
apply (wallet_debited e) p = apply_wallet_debited e p
apply (wallet_refunded e) p = apply_wallet_refunded e p
apply _ p = p

-- `if err := json.Unmarshal(rec.Payload, &e); err != nil { … }` and then the method on `e`.
abbrev pub decoded :
    {E : Type 0} → String ⊎ E → (E → Projector → Projector) → Action Projector (Unit {0})
decoded (inl text) f p = (err (internal_error text), p)
decoded (inr e) f p = (ok tt, f e p)

module _ (c : Codec) where
  unfoldable pub apply_record : Record c.Payload → Action Projector (Unit {0})
  apply_record rec =
      if rec.event_name == "payment.created"
      then decoded (c.to_created rec.payload) apply_payment_created
      else if rec.event_name == "payment.initialized"
      then decoded (c.to_initialized rec.payload) apply_payment_initialized
      else if rec.event_name == "payment.pending"
      then decoded (c.to_pending rec.payload) apply_payment_pending
      else if rec.event_name == "payment.rejected"
      then decoded (c.to_rejected rec.payload) apply_payment_rejected
      else if rec.event_name == "payment.completed"
      then decoded (c.to_succeeded rec.payload) apply_payment_succeeded
      else if rec.event_name == "payment.failed"
      then decoded (c.to_failed rec.payload) apply_payment_failed
      else if rec.event_name == "wallet.credited"
      then decoded (c.to_credited rec.payload) apply_wallet_credited
      else if rec.event_name == "wallet.debited"
      then decoded (c.to_debited rec.payload) apply_wallet_debited
      else if rec.event_name == "wallet.refunded"
      then decoded (c.to_refunded rec.payload) apply_wallet_refunded
      else (λ p. (ok tt, p))

  unfoldable pub replay_records : List (Record c.Payload) → Action Projector (Unit {0})
  replay_records [] p = (ok tt, p)
  replay_records (rec ∷ recs) p = (apply_record rec >> replay_records recs) p

  unfoldable pub replay : Store c.Payload c.Line → Action Projector (Unit {0})
  unfolding replay_records all
  replay s = replay_records (all s)
