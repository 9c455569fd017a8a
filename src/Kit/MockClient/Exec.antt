-- ===== src/Kit/MockClient/Exec.antt =====
-- The methods of `MockClient`: loading and saving the wallets, `Exec` and `QueryRow`.
use Prim.Native.String.{◌++◌ as text_append}
use challenge_senior.Prelude.{
  String, ◌⊎◌, inl, inr, Option, none, some, List, [], ◌∷◌, if◌then◌else◌, ◌==◌,
}
use challenge_senior.Prelude.Int.{pos, ltb_ℤ}
use challenge_senior.Prelude.Int64.{sub64}
use challenge_senior.Prelude.GoMap.{lookup, index, insert}
use challenge_senior.Kit.Errors.{sentinel, not_found, conflict}
use challenge_senior.Kit.Action.{
  Result, ok, err, Action, continue, pure, raise, give, modify, ◌>>=◌, ◌>>◌,
}
use challenge_senior.Kit.Os.{Os, contents, missing, unreadable}
use challenge_senior.Kit.MockClient.{
  Value, str, int64, PaymentRow, Client, MockRow, row_of, row_err, internal_error, to_string,
  as_string, as_int64, must_int64, wallet_upsert, wallet_debit, payment_upsert, wallet_select,
  payment_select,
}

-- `errors.Join(ErrInternal, err)` where `err != nil`
abbrev pub join_internal : {A : Type 0} → String ⊎ A → Result A
join_internal (inl text) = err (internal_error text)
join_internal (inr a) = ok a

abbrev pub of_error : Option String → Result (Unit {0})
of_error none = ok tt
of_error (some text) = err (internal_error text)

-- A call of the system by the client; its error is joined with ErrInternal.
abbrev pub system : {W : Type 0} → (W → Option String × W) → Action (Client W) (Unit {0})
system f c = let (e, w) = f c.world in (of_error e, record c { world = w })

module _ (os : Os) where
  abbrev pub DbClient : Type 0
  DbClient = Client os.World

  unfoldable pub persist_wallets_locked : Action DbClient (Unit {0})
  persist_wallets_locked c =
      if c.wallets_persist_path == ""
      then (ok tt, c)
      else (do
        system (os.mkdir_all (os.dir c.wallets_persist_path))
        b ← give (join_internal (os.marshal c.wallets))
        system (os.write_file (text_append c.wallets_persist_path ".tmp") (os.newline b))
        system (os.rename (text_append c.wallets_persist_path ".tmp") c.wallets_persist_path))
          c

  -- The three statements of `Exec`, each with the number of its arguments.
  unfoldable pub exec_wallet_upsert : List Value → Action DbClient (Unit {0})
  unfolding to_string as_int64
  exec_wallet_upsert (u ∷ b ∷ _ ∷ []) = do
    modify (λ c. record c { wallets = insert (to_string u) (as_int64 b) c.wallets })
    persist_wallets_locked
  exec_wallet_upsert _ = raise (internal_error "invalid args")

  unfoldable pub exec_wallet_debit : List Value → Action DbClient (Unit {0})
  unfolding to_string as_int64
  exec_wallet_debit (a ∷ u ∷ m ∷ []) c =
      let cur = index (pos 0) (to_string u) c.wallets in
      if ltb_ℤ cur (as_int64 m)
      then (err (sentinel conflict), c)
      else persist_wallets_locked
          (record c { wallets = insert (to_string u) (sub64 cur (as_int64 a)) c.wallets })
  exec_wallet_debit _ c = (err (internal_error "invalid args"), c)

  unfoldable pub exec_payment_upsert : List Value → Action DbClient (Unit {0})
  unfolding to_string must_int64
  exec_payment_upsert (p ∷ u ∷ a ∷ s ∷ st ∷ r ∷ g ∷ _ ∷ _ ∷ _ ∷ _ ∷ _ ∷ _ ∷ []) = do
    amount ← give (must_int64 a)
    modify (λ c. record c {
      payments =
          insert (to_string p)
            (record {
              payment_id = to_string p;
              user_id = to_string u;
              amount = amount;
              service = to_string s;
              status = to_string st;
              reason = to_string r;
              gateway_id = to_string g;
            })
            c.payments;
    })
  exec_payment_upsert _ = raise (internal_error "invalid args")

  unfoldable pub exec : String → List Value → Action DbClient (Unit {0})
  unfolding exec_wallet_upsert exec_wallet_debit exec_payment_upsert
  exec query args =
      if query == wallet_upsert
      then exec_wallet_upsert args
      else if query == wallet_debit
      then exec_wallet_debit args
      else if query == payment_upsert
      then exec_payment_upsert args
      else raise (internal_error "unsupported query")

  -- `WithWalletsJSONFile(path)`
  unfoldable pub with_wallets_json_file : String → Action DbClient (Unit {0})
  with_wallets_json_file path c = elim (os.read_file path c.world) [
    | contents b ↦
        if os.is_empty b
        then (ok tt, c)
        else continue (join_internal (os.unmarshal b)) c (λ m c. (ok tt, record c { wallets = m }))
    | missing ↦ (ok tt, c)
    | unreadable text ↦ (err (internal_error text), c)
  ]

-- `WithWalletsJSONPersistence(path)`
unfoldable pub with_wallets_json_persistence : {W : Type 0} → String → Action (Client W) (Unit {0})
with_wallets_json_persistence path = modify (λ c. record c { wallets_persist_path = path })

-- A client as `NewMockClient` makes it, before its options.
unfoldable pub empty_client : {W : Type 0} → W → Client W
empty_client w = record { wallets = []; payments = []; wallets_persist_path = ""; world = w }

-- The two statements of `QueryRow`. It always returns a row; a failure is in the row.
unfoldable pub query_wallet : {W : Type 0} → List Value → Client W → MockRow
unfolding as_string
query_wallet (u ∷ []) c = elim (lookup (as_string u) c.wallets) [
  | none ↦ row_err (sentinel not_found)
  | some bal ↦ row_of (int64 bal ∷ [])
]
query_wallet _ c = row_err (internal_error "invalid args")

abbrev pub row_values : PaymentRow → List Value
row_values r =
    str r.payment_id
    ∷ str r.user_id
    ∷ int64 r.amount
    ∷ str r.service
    ∷ str r.status
    ∷ str r.reason
    ∷ str r.gateway_id
    ∷ []

unfoldable pub query_payment : {W : Type 0} → List Value → Client W → MockRow
unfolding as_string
query_payment (p ∷ []) c = elim (lookup (as_string p) c.payments) [
  | none ↦ row_err (sentinel not_found)
  | some row ↦ row_of (row_values row)
]
query_payment _ c = row_err (internal_error "invalid args")

unfoldable pub query_row : {W : Type 0} → String → List Value → Action (Client W) MockRow
unfolding query_wallet query_payment
query_row query args c =
    if query == wallet_select
    then (ok (query_wallet args c), c)
    else if query == payment_select
    then (ok (query_payment args c), c)
    else (ok (row_err (internal_error "unsupported query")), c)

-- The loop over the options of `NewMockClient`, which stops at the first error.
unfoldable pub apply_options :
    {W : Type 0} → List (Action (Client W) (Unit {0})) → Action (Client W) (Unit {0})
apply_options [] = pure tt
apply_options (opt ∷ opts) = opt >> apply_options opts

unfoldable pub new_mock_client :
    {W : Type 0} → List (Action (Client W) (Unit {0})) → W → Result (Unit {0}) × Client W
unfolding apply_options empty_client
new_mock_client opts w = apply_options opts (empty_client w)
