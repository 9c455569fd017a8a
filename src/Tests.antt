-- ===== src/Tests.antt =====
-- Concrete parts for the tests: disks, an encoding, wallets and payments with something in them.
pub mod Wallets
pub mod Payments
pub mod Gateways
pub mod Stores
pub mod Workflow
pub mod Checks
pub mod Buses
pub mod Systems
pub mod Endings
pub mod Overlaps
pub mod Starts
pub mod Webs
use mathlib.Core.Path.{subst}
use challenge_senior.Prelude.{
  String, Bool, true, false, ◌≡◌, refl, sym, ap, ◌⊎◌, inl, inr, Option, none, some, List, [], ◌∷◌,
  if◌then◌else◌, ◌==◌, eq_refl, arith, Option-cases,
}
use challenge_senior.Prelude.Int.{ℤ, pos}
use challenge_senior.Prelude.GoMap.{GoMap}
use challenge_senior.Kit.Errors.{Error}
use challenge_senior.Kit.Os.{Os, Reading, contents, missing, FilesWork}
use challenge_senior.Kit.Codec.{Codec, Record, RoundTrips}
use challenge_senior.Kit.Observability.{Metrics, new_metrics}
use challenge_senior.Events.{
  Event, PaymentCreated, PaymentInitialized, PaymentPending, PaymentRejected, PaymentSucceeded,
  PaymentFailed, WalletCredited, WalletDebited, WalletRefunded, payment_created,
  payment_initialized, payment_pending, payment_rejected, payment_succeeded, payment_failed,
  wallet_credited, wallet_debited, wallet_refunded,
}

-- A disk as a function from paths to documents.
abbrev pub Disk : Type 0
Disk = String → Option (GoMap ℤ)

abbrev pub reading : Option (GoMap ℤ) → Reading (GoMap ℤ)
reading none = missing
reading (some b) = contents b

abbrev pub write_on : String → GoMap ℤ → Disk → Disk
write_on path b w p = if p == path then some b else w p

abbrev pub move : String → String → Disk → Option String × Disk
move old new w = elim (w old) [
  | none ↦ (some "no such file", w)
  | some b ↦ (none, λ p. if p == new then some b else if p == old then none else w p)
]

-- A system that works, and one whose disk is full.
abbrev pub disk : Os
disk = record {
  World = Disk;
  Bytes = GoMap ℤ;
  dir = λ p. p;
  mkdir_all = λ p w. (none, w);
  write_file = λ p b w. (none, write_on p b w);
  rename = move;
  read_file = λ p w. reading (w p);
  marshal = λ m. inr m;
  unmarshal = λ b. inr b;
  newline = λ b. b;
  is_empty = λ b. false;
}

abbrev pub full_disk : Os
full_disk = record disk { write_file = λ p b w. (some "no space left on device", w) }

abbrev pub empty_disk : Disk
empty_disk p = none

move_read :
    (old new : String) (b : GoMap ℤ) (w : Disk)
    → reading (w old) ≡ contents b
    → reading ((move old new w).1 new) ≡ contents b
move_read old new b w h = elim (Option-cases (w old)) [
  | inl none_there ↦ absurd (ground (arith, h, none_there))
  | inr (d, there) ↦ rw (there, move, eq_refl) (rw there at h)
]

pub disk-FilesWork : FilesWork disk
disk-FilesWork = record {
  write_read = λ path b w h. rw eq_refl;
  rename_read = λ old new b w h k. move_read old new b w h;
  unmarshal_lem = λ m b h. sym h;
  newline_nonempty = λ b. refl;
}

abbrev other_type : {A : Type 0} → String ⊎ A
other_type = inl "another type"

-- An encoding that keeps the values as they are.
abbrev pub json : Codec
json = record {
  Payload = Event;
  Line = Record Event;
  marshal = λ e. inr e;
  to_created = to_created;
  to_initialized = to_initialized;
  to_pending = to_pending;
  to_rejected = to_rejected;
  to_succeeded = to_succeeded;
  to_failed = to_failed;
  to_credited = to_credited;
  to_debited = to_debited;
  to_refunded = to_refunded;
  write_line = λ r. inr r;
  read_line = λ l. inr l;
  is_blank = λ l. false;
}
  where
    to_created : Event → String ⊎ PaymentCreated
    to_created (payment_created e) = inr e
    to_created _ = other_type

    to_initialized : Event → String ⊎ PaymentInitialized
    to_initialized (payment_initialized e) = inr e
    to_initialized _ = other_type

    to_pending : Event → String ⊎ PaymentPending
    to_pending (payment_pending e) = inr e
    to_pending _ = other_type

    to_rejected : Event → String ⊎ PaymentRejected
    to_rejected (payment_rejected e) = inr e
    to_rejected _ = other_type

    to_succeeded : Event → String ⊎ PaymentSucceeded
    to_succeeded (payment_succeeded e) = inr e
    to_succeeded _ = other_type

    to_failed : Event → String ⊎ PaymentFailed
    to_failed (payment_failed e) = inr e
    to_failed _ = other_type

    to_credited : Event → String ⊎ WalletCredited
    to_credited (wallet_credited e) = inr e
    to_credited _ = other_type

    to_debited : Event → String ⊎ WalletDebited
    to_debited (wallet_debited e) = inr e
    to_debited _ = other_type

    to_refunded : Event → String ⊎ WalletRefunded
    to_refunded (wallet_refunded e) = inr e
    to_refunded _ = other_type

right_of {ℓ} : {A B : Type ℓ} → A → B ⊎ A → A
right_of z (inl b) = z
right_of z (inr a) = a

-- What a decoder makes of the encoded value it makes of every equal one.
decodes :
    {B : Type 0} (f : Event → String ⊎ B) (y : String ⊎ B) (a : Event) {b : Event}
    → f a ≡ y
    → json.marshal a ≡ inr b
    → f b ≡ y
unfolding right_of
decodes f y a h e = subst (λ c. f c ≡ y) (ap (right_of a) e) h

decodes_line :
    (a : Record Event) {b : Record Event} → json.write_line a ≡ inr b → json.read_line b ≡ inr a
decodes_line a e = sym e

pub json-RoundTrips : RoundTrips json
json-RoundTrips = record {
  created = λ e h. decodes json.to_created (inr e) (payment_created e) refl h;
  initialized = λ e h. decodes json.to_initialized (inr e) (payment_initialized e) refl h;
  pending = λ e h. decodes json.to_pending (inr e) (payment_pending e) refl h;
  rejected = λ e h. decodes json.to_rejected (inr e) (payment_rejected e) refl h;
  succeeded = λ e h. decodes json.to_succeeded (inr e) (payment_succeeded e) refl h;
  failed = λ e h. decodes json.to_failed (inr e) (payment_failed e) refl h;
  credited = λ e h. decodes json.to_credited (inr e) (wallet_credited e) refl h;
  debited = λ e h. decodes json.to_debited (inr e) (wallet_debited e) refl h;
  refunded = λ e h. decodes json.to_refunded (inr e) (wallet_refunded e) refl h;
  line = λ r h. decodes_line r h;
  line_not_blank = λ r h. refl;
}
