-- ===== src/Payment/Sql.antt =====
-- The `SQLRepository` of internal/payment/repository.go, over the mock client.
use challenge_senior.Prelude.{String, Option, none, some, List, [], ◌∷◌, refl, arith}
use challenge_senior.Prelude.GoMap.{lookup, lookup-insert}
use challenge_senior.Kit.Action.{Result, ok, panic, Action, give, ◌>>=◌}
use challenge_senior.Kit.Os.{Os}
use challenge_senior.Kit.MockClient.{
  Value, str, named, int64, PaymentRow, Client, Dest, string_ptr, int64_ptr, string_kind_ptr, scan,
  as_int64, as_string, to_string,
}
use challenge_senior.Kit.MockClient.Exec.{exec, query_row}
use challenge_senior.Payment.{Payment, Repository}
use challenge_senior.Payment.Laws.{IsStore}

abbrev pub q_payment_upsert : String
q_payment_upsert =
    "INSERT INTO payments (payment_id, user_id, amount, service, status, reason, gateway_id) VALUES (?, ?, ?, ?, ?, ?, ?) ON DUPLICATE KEY UPDATE user_id=?, amount=?, service=?, status=?, reason=?, gateway_id=?"

abbrev pub q_payment_get : String
q_payment_get =
    "SELECT payment_id, user_id, amount, service, status, reason, gateway_id FROM payments WHERE payment_id = ?"

-- `&p.ID, &p.UserID, …`: pointers to the fields, of which `Status` is of a string kind
abbrev pub payment_dest : List Dest
payment_dest =
    string_ptr ∷ string_ptr ∷ int64_ptr ∷ string_ptr ∷ string_kind_ptr ∷ string_ptr ∷ string_ptr
    ∷ []

-- The payment that the seven scanned values make; `Scan` writes no other number of them.
abbrev pub scanned_payment : List Value → Result Payment
scanned_payment (i ∷ u ∷ a ∷ s ∷ st ∷ r ∷ g ∷ []) = ok (record {
  id = as_string i;
  user_id = as_string u;
  amount = as_int64 a;
  service = as_string s;
  status = to_string st;
  reason = as_string r;
  gateway_id = as_string g;
})
scanned_payment _ = panic

module _ (os : Os) where
  unfoldable pub sql_save : Payment → Action (Client os.World) (Unit {0})
  unfolding exec
  sql_save p = exec os q_payment_upsert (
      str p.id
      ∷ str p.user_id
      ∷ int64 p.amount
      ∷ str p.service
      ∷ named p.status
      ∷ str p.reason
      ∷ str p.gateway_id
      ∷ str p.user_id
      ∷ int64 p.amount
      ∷ str p.service
      ∷ named p.status
      ∷ str p.reason
      ∷ str p.gateway_id
      ∷ [])

  unfoldable pub sql_get : String → Action (Client os.World) Payment
  unfolding query_row scan as_string as_int64 to_string
  sql_get payment = do
    row ← query_row q_payment_get (str payment ∷ [])
    values ← give (scan row payment_dest)
    give (scanned_payment values)

  abbrev pub sql_repository : Repository (Client os.World)
  sql_repository = record { save = sql_save; get = sql_get }

-- The payment that a row holds.
abbrev pub payment_of : PaymentRow → Payment
payment_of r = record {
  id = r.payment_id;
  user_id = r.user_id;
  amount = r.amount;
  service = r.service;
  status = r.status;
  reason = r.reason;
  gateway_id = r.gateway_id;
}

abbrev pub row_payment : Option PaymentRow → Option Payment
row_payment none = none
row_payment (some r) = some (payment_of r)

abbrev pub stored_in_client : {W : Type 0} → Client W → String → Option Payment
stored_in_client c i = row_payment (lookup i c.payments)

abbrev row_for : Payment → PaymentRow
row_for p = record {
  payment_id = p.id;
  user_id = p.user_id;
  amount = p.amount;
  service = p.service;
  status = p.status;
  reason = p.reason;
  gateway_id = p.gateway_id;
}

-- The payment repository over SQL is a map from ids to payments: each column comes back as it
-- was written.
pub sql_repository-IsStore :
    (os : Os) → IsStore (sql_repository os) (stored_in_client {W = os.World})
unfolding sql_save sql_get
sql_repository-IsStore os = record {
  get_lem = λ i c. ground arith;
  save_lem = λ p c j. ground (arith, lookup-insert p.id j (row_for p) c.payments);
  save_outcome = λ p c. refl;
}
