-- ===== src/Kit/MockClient.antt =====
-- kit/db/mock_client.go: the SQL client over two maps, which writes the wallets to a JSON file.
-- A document `null` in that file, which would leave the map nil, is not modelled. The methods
-- are in Exec, and what a save and a load of the wallets do in Persistence.
pub mod Exec
pub mod Persistence
use Prim.Native.String.{◌++◌ as text_append}
use challenge_senior.Prelude.{
  ℕ, zero, suc, String, Bool, true, false, Option, none, some, List, [], ◌∷◌, if◌then◌else◌, eqb,
  length,
}
use challenge_senior.Prelude.Int.{ℤ, pos, ltb_ℤ}
use challenge_senior.Prelude.Int64.{sub64}
use challenge_senior.Prelude.GoMap.{GoMap, lookup, index, insert}
use challenge_senior.Kit.Errors.{Error, sentinel, made, join, is, not_found, conflict, internal}
use challenge_senior.Kit.Action.{
  Result, ok, err, panic, Action, continue, raise, raise_if, give, modify, gets, ◌>>=◌, ◌>>◌,
}
use challenge_senior.Kit.Os.{Os}

-- An argument or a column, as `any`: a string, a value of a type whose underlying type is
-- string, an int64, or nil.
pub data Value : Type 0 where
  str : String → Value
  named : String → Value
  int64 : ℤ → Value
  null : Value

-- The row that is stored under a payment's id.
pub record PaymentRow : Type 0 where
  pub payment_id : String
  pub user_id : String
  pub amount : ℤ
  pub service : String
  pub status : String
  pub reason : String
  pub gateway_id : String

pub record Client (World : Type 0) : Type 0 where
  pub wallets : GoMap ℤ
  pub payments : GoMap PaymentRow
  pub wallets_persist_path : String
  pub world : World

-- `mockRow`
pub record MockRow : Type 0 where
  pub vals : List Value
  pub failure : Option Error

-- What a destination of `Scan` points to.
pub data Dest : Type 0 where
  string_ptr int64_ptr string_kind_ptr int64_kind_ptr other_ptr : Dest

abbrev pub wallet_upsert : String
wallet_upsert =
    "INSERT INTO wallets (user_id, balance) VALUES (?, ?) ON DUPLICATE KEY UPDATE balance = ?"

abbrev pub wallet_debit : String
wallet_debit = "UPDATE wallets SET balance = balance - ? WHERE user_id = ? AND balance >= ?"

abbrev pub payment_upsert : String
payment_upsert =
    "INSERT INTO payments (payment_id, user_id, amount, service, status, reason, gateway_id) VALUES (?, ?, ?, ?, ?, ?, ?) ON DUPLICATE KEY UPDATE user_id=?, amount=?, service=?, status=?, reason=?, gateway_id=?"

abbrev pub wallet_select : String
wallet_select = "SELECT balance FROM wallets WHERE user_id = ?"

abbrev pub payment_select : String
payment_select =
    "SELECT payment_id, user_id, amount, service, status, reason, gateway_id FROM payments WHERE payment_id = ?"

-- `errors.Join(ErrInternal, errors.New(text))`
abbrev pub internal_error : String → Error
internal_error text = join (sentinel internal) (made text)

-- The closure `toString`, whose second result every caller drops.
unfoldable pub to_string : Value → String
to_string null = ""
to_string (str s) = s
to_string (named s) = s
to_string (int64 n) = ""

-- `s, _ := v.(string)` and `n, _ := v.(int64)`
unfoldable pub as_string : Value → String
as_string (str s) = s
as_string _ = ""

unfoldable pub as_int64 : Value → ℤ
as_int64 (int64 n) = n
as_int64 _ = pos 0

-- `v.(int64)`, which panics at another type
unfoldable pub must_int64 : Value → Result ℤ
must_int64 (int64 n) = ok n
must_int64 _ = panic

-- One destination of `Scan`.
unfoldable pub scan_one : Dest → Value → Result Value
unfolding as_string as_int64
scan_one string_ptr v = ok (str (as_string v))
scan_one int64_ptr v = ok (int64 (as_int64 v))
scan_one string_kind_ptr (str s) = ok (named s)
scan_one int64_kind_ptr (int64 n) = ok (int64 n)
scan_one _ v = err (internal_error "unsupported scan type")

abbrev pub and_then {ℓ κ} : {A : Type ℓ} {B : Type κ} → Result A → (A → Result B) → Result B
and_then (ok a) f = f a
and_then (err e) f = err e
and_then panic f = panic

-- The loop of `Scan`, with what it has written; the lists are of one length.
unfoldable pub scan_all : List Dest → List Value → Result (List Value)
unfolding scan_one
scan_all (d ∷ ds) (v ∷ vs) =
    and_then (scan_one d v) (λ x. and_then (scan_all ds vs) (λ xs. ok (x ∷ xs)))
scan_all _ _ = ok []

unfoldable pub scan : MockRow → List Dest → Result (List Value)
unfolding scan_all
scan row dest = elim row.failure [
  | some e ↦ err e
  | none ↦
      if eqb (length dest) (length row.vals)
      then scan_all dest row.vals
      else err (internal_error "scan arg mismatch")
]

abbrev pub row_of : List Value → MockRow
row_of vs = record { vals = vs; failure = none }

abbrev pub row_err : Error → MockRow
row_err e = record { vals = []; failure = some e }
