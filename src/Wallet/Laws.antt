-- ===== src/Wallet/Laws.antt =====
-- What the wallet service relies on: the contract of a repository, as a map from users to
-- balances. A write may report an internal error, and the new balance stands in memory then too.
use challenge_senior.Prelude.{String, true, ◌≡◌, if◌then◌else◌, ◌==◌}
use challenge_senior.Prelude.Int.{ℤ, pos, ◌≤ℤ◌, ◌<ℤ◌}
use challenge_senior.Prelude.Int64.{sub64}
use challenge_senior.Kit.Errors.{sentinel, is_internal, insufficient_funds}
use challenge_senior.Kit.Action.{Result, ok, err, panic}
use challenge_senior.Wallet.{Repository}

-- The outcome of a write that reached the storage: success, or an internal error.
abbrev pub IsWritten : Result (Unit {0}) → Type 0
IsWritten (ok _) = Unit {0}
IsWritten (err e) = is_internal e ≡ true
IsWritten panic = ⊥

-- What user `j` holds once user `u` holds `a`.
abbrev pub written : (String → ℤ) → String → ℤ → String → ℤ
written held u a j = if u == j then a else held j

pub record IsLedger {S : Type 0} (r : Repository S) (held : S → String → ℤ) : Type 0 where
  pub get_lem : (u : String) (s : S) → r.get_balance u s ≡ (ok (held s u), s)
  pub set_lem :
      (u : String) (a : ℤ) (s : S) (j : String)
      → held (r.set_balance u a s).1 j ≡ written (held s) u a j
  pub set_outcome : (u : String) (a : ℤ) (s : S) → IsWritten (r.set_balance u a s).0
  pub debit_short :
      (u : String) (a : ℤ) (s : S)
      → pos 0 <ℤ a
      → held s u <ℤ a
      → r.debit_if_sufficient_funds u a s ≡ (err (sentinel insufficient_funds), s)
  pub debit_lem :
      (u : String) (a : ℤ) (s : S) (j : String)
      → pos 0 <ℤ a
      → a ≤ℤ held s u
      → held (r.debit_if_sufficient_funds u a s).1 j ≡ written (held s) u (sub64 (held s u) a) j
  pub debit_outcome :
      (u : String) (a : ℤ) (s : S)
      → pos 0 <ℤ a
      → a ≤ℤ held s u
      → IsWritten (r.debit_if_sufficient_funds u a s).0
