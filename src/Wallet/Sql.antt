-- ===== src/Wallet/Sql.antt =====
-- The `SQLRepository` of internal/wallet/repository.go, over the mock client.
use challenge_senior.Prelude.{String, [], ◌∷◌, if◌then◌else◌, ◌≡◌, arith, List}
use challenge_senior.Prelude.Int.{ℤ, pos, ◌≤ℤ◌, ◌<ℤ◌}
use challenge_senior.Prelude.Int64.{sub64}
use challenge_senior.Prelude.GoMap.{GoMap, index, insert, index-insert}
use challenge_senior.Kit.Errors.{sentinel, is_not_found, is_conflict, insufficient_funds}
use challenge_senior.Kit.Action.{Result, ok, err, panic, Action, give, ◌>>=◌}
use challenge_senior.Kit.Os.{Os}
use challenge_senior.Kit.MockClient.{Value, str, int64, Client, int64_ptr, scan, as_int64}
use challenge_senior.Kit.MockClient.Exec.{exec, query_row}
use challenge_senior.Kit.MockClient.Persistence.{persist-wallets, persist-IsSaved, IsSaved}
use challenge_senior.Wallet.{Repository}
use challenge_senior.Wallet.Laws.{IsLedger, IsWritten, written}

abbrev pub q_wallet_get_balance : String
q_wallet_get_balance = "SELECT balance FROM wallets WHERE user_id = ?"

abbrev pub q_wallet_upsert : String
q_wallet_upsert =
    "INSERT INTO wallets (user_id, balance) VALUES (?, ?) ON DUPLICATE KEY UPDATE balance = ?"

abbrev pub q_wallet_debit : String
q_wallet_debit = "UPDATE wallets SET balance = balance - ? WHERE user_id = ? AND balance >= ?"

-- `var bal int64`, scanned from a row of one column
abbrev pub scanned_balance : Result (List Value) → Result ℤ
scanned_balance (ok []) = ok (pos 0)
scanned_balance (ok (v ∷ vs)) = ok (as_int64 v)
scanned_balance (err e) = if is_not_found e then ok (pos 0) else err e
scanned_balance panic = panic

abbrev pub conflict_to_funds : Result (Unit {0}) → Result (Unit {0})
conflict_to_funds (err e) = if is_conflict e then err (sentinel insufficient_funds) else err e
conflict_to_funds r = r

module _ (os : Os) where
  unfoldable pub sql_get_balance : String → Action (Client os.World) ℤ
  unfolding query_row scan as_int64 is_not_found
  sql_get_balance user = do
    row ← query_row q_wallet_get_balance (str user ∷ [])
    give (scanned_balance (scan row (int64_ptr ∷ [])))

  unfoldable pub sql_set_balance : String → ℤ → Action (Client os.World) (Unit {0})
  unfolding exec
  sql_set_balance user amount =
      exec os q_wallet_upsert (str user ∷ int64 amount ∷ int64 amount ∷ [])

  unfoldable pub sql_debit_if_sufficient_funds : String → ℤ → Action (Client os.World) (Unit {0})
  unfolding exec is_conflict
  sql_debit_if_sufficient_funds user amount c =
      let (r, c') = exec os q_wallet_debit (int64 amount ∷ str user ∷ int64 amount ∷ []) c in
      (conflict_to_funds r, c')

  abbrev pub sql_repository : Repository (Client os.World)
  sql_repository = record {
    get_balance = sql_get_balance;
    set_balance = sql_set_balance;
    debit_if_sufficient_funds = sql_debit_if_sufficient_funds;
  }

abbrev pub held_in_client : {W : Type 0} → Client W → String → ℤ
held_in_client c u = index (pos 0) u c.wallets

sql_get_lem :
    (os : Os) (u : String) (c : Client os.World)
    → sql_get_balance os u c ≡ (ok (held_in_client c u), c)
unfolding sql_get_balance index
sql_get_lem os u c = ground arith

-- An error of the storage is an internal one, and is passed on.
IsSaved-IsWritten : (r : Result (Unit {0})) → IsSaved r → IsWritten r
IsSaved-IsWritten (ok _) h = h
IsSaved-IsWritten (err e) h = h.0
IsSaved-IsWritten panic h = h

IsSaved-conflict_to_funds : (r : Result (Unit {0})) → IsSaved r → IsWritten (conflict_to_funds r)
IsSaved-conflict_to_funds (ok _) h = h
IsSaved-conflict_to_funds (err e) h = rw (h.1) (h.0)
IsSaved-conflict_to_funds panic h = h

abbrev debited : {W : Type 0} → String → ℤ → Client W → GoMap ℤ
debited u a c = insert u (sub64 (held_in_client c u) a) c.wallets

module _ (os : Os) where
  sql_set_lem :
      (u : String) (a : ℤ) (c : Client os.World) (j : String)
      → held_in_client (sql_set_balance os u a c).1 j ≡ written (held_in_client c) u a j
  unfolding sql_set_balance
  sql_set_lem u a c j = rw persist-wallets (index-insert (pos 0) u j a c.wallets)

  sql_set_outcome :
      (u : String) (a : ℤ) (c : Client os.World) → IsWritten (sql_set_balance os u a c).0
  unfolding sql_set_balance
  sql_set_outcome u a c =
      IsSaved-IsWritten _ (persist-IsSaved os (record c { wallets = insert u a c.wallets }))

  sql_debit_short :
      (u : String) (a : ℤ) (c : Client os.World)
      → held_in_client c u <ℤ a
      → sql_debit_if_sufficient_funds os u a c ≡ (err (sentinel insufficient_funds), c)
  unfolding sql_debit_if_sufficient_funds
  sql_debit_short u a c short = ground arith

  sql_debit_lem :
      (u : String) (a : ℤ) (c : Client os.World) (j : String)
      → a ≤ℤ held_in_client c u
      → held_in_client (sql_debit_if_sufficient_funds os u a c).1 j
        ≡ written (held_in_client c) u (sub64 (held_in_client c u) a) j
  unfolding sql_debit_if_sufficient_funds
  sql_debit_lem u a c j covered = ground (
    arith,
    persist-wallets os (record c { wallets = debited u a c }),
    index-insert (pos 0) u j (sub64 (held_in_client c u) a) c.wallets,
  )

  sql_debit_outcome :
      (u : String) (a : ℤ) (c : Client os.World)
      → a ≤ℤ held_in_client c u
      → IsWritten (sql_debit_if_sufficient_funds os u a c).0
  unfolding sql_debit_if_sufficient_funds
  sql_debit_outcome u a c covered = ground (
    arith,
    IsSaved-conflict_to_funds _ (persist-IsSaved os (record c { wallets = debited u a c })),
  )

-- The wallet repository over SQL keeps the contract that the service relies on, whatever the
-- file system does.
pub sql_repository-IsLedger :
    (os : Os) → IsLedger (sql_repository os) (held_in_client {W = os.World})
sql_repository-IsLedger os = record {
  get_lem = sql_get_lem os;
  set_lem = sql_set_lem os;
  set_outcome = sql_set_outcome os;
  debit_short = λ u a c p. sql_debit_short os u a c;
  debit_lem = λ u a c j p. sql_debit_lem os u a c j;
  debit_outcome = λ u a c p. sql_debit_outcome os u a c;
}
