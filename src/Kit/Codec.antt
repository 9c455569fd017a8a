-- ===== src/Kit/Codec.antt =====
-- What the program asks of encoding/json for events and for the lines of the event store. It is
-- not code of the repository, so it is a parameter; its errors are given by their texts.
use challenge_senior.Prelude.{ℕ, String, Bool, false, ◌≡◌, ◌⊎◌, inr}
use challenge_senior.Events.{
  Event, PaymentCreated, PaymentInitialized, PaymentPending, PaymentRejected, PaymentSucceeded,
  PaymentFailed, WalletCredited, WalletDebited, WalletRefunded, payment_created,
  payment_initialized, payment_pending, payment_rejected, payment_succeeded, payment_failed,
  wallet_credited, wallet_debited, wallet_refunded,
}

-- kit/db/store.go `Record`, over the bytes of a payload.
pub record Record (Payload : Type 0) : Type 0 where
  pub aggregate_id : String
  pub event_name : String
  pub payload : Payload
  pub occurred_at : ℕ

pub record Codec : Type 1 where
  pub Payload : Type 0
  pub Line : Type 0
  -- json.Marshal of an event, and json.Unmarshal into each type that the read model decodes
  pub marshal : Event → String ⊎ Payload
  pub to_created : Payload → String ⊎ PaymentCreated
  pub to_initialized : Payload → String ⊎ PaymentInitialized
  pub to_pending : Payload → String ⊎ PaymentPending
  pub to_rejected : Payload → String ⊎ PaymentRejected
  pub to_succeeded : Payload → String ⊎ PaymentSucceeded
  pub to_failed : Payload → String ⊎ PaymentFailed
  pub to_credited : Payload → String ⊎ WalletCredited
  pub to_debited : Payload → String ⊎ WalletDebited
  pub to_refunded : Payload → String ⊎ WalletRefunded
  -- a record as a line of the file, without its newline
  pub write_line : Record Payload → String ⊎ Line
  pub read_line : Line → String ⊎ Record Payload
  pub is_blank : Line → Bool

-- Documented behaviour: a value decodes, at its own type, from the document that it was encoded
-- to, and so does a record from its line, which is not blank.
pub record RoundTrips (c : Codec) : Type 0 where
  pub created :
      (e : PaymentCreated) {b : c.Payload}
      → c.marshal (payment_created e) ≡ inr b
      → c.to_created b ≡ inr e
  pub initialized :
      (e : PaymentInitialized) {b : c.Payload}
      → c.marshal (payment_initialized e) ≡ inr b
      → c.to_initialized b ≡ inr e
  pub pending :
      (e : PaymentPending) {b : c.Payload}
      → c.marshal (payment_pending e) ≡ inr b
      → c.to_pending b ≡ inr e
  pub rejected :
      (e : PaymentRejected) {b : c.Payload}
      → c.marshal (payment_rejected e) ≡ inr b
      → c.to_rejected b ≡ inr e
  pub succeeded :
      (e : PaymentSucceeded) {b : c.Payload}
      → c.marshal (payment_succeeded e) ≡ inr b
      → c.to_succeeded b ≡ inr e
  pub failed :
      (e : PaymentFailed) {b : c.Payload}
      → c.marshal (payment_failed e) ≡ inr b
      → c.to_failed b ≡ inr e
  pub credited :
      (e : WalletCredited) {b : c.Payload}
      → c.marshal (wallet_credited e) ≡ inr b
      → c.to_credited b ≡ inr e
  pub debited :
      (e : WalletDebited) {b : c.Payload}
      → c.marshal (wallet_debited e) ≡ inr b
      → c.to_debited b ≡ inr e
  pub refunded :
      (e : WalletRefunded) {b : c.Payload}
      → c.marshal (wallet_refunded e) ≡ inr b
      → c.to_refunded b ≡ inr e
  pub line : (r : Record c.Payload) {l : c.Line} → c.write_line r ≡ inr l → c.read_line l ≡ inr r
  pub line_not_blank :
      (r : Record c.Payload) {l : c.Line} → c.write_line r ≡ inr l → c.is_blank l ≡ false
