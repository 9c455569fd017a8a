-- ===== src/Wallet/Memory.antt =====
-- The `InMemoryRepository` of internal/wallet/repository.go. Its lock makes each method one step.
use challenge_senior.Prelude.{String, none, some, [], refl, arith}
use challenge_senior.Prelude.Int.{ℤ, pos}
use challenge_senior.Prelude.Int64.{sub64}
use challenge_senior.Prelude.GoMap.{GoMap, index, insert, index-insert}
use challenge_senior.Kit.Action.{ok, err, Action}
use challenge_senior.Wallet.{Repository, validate_sufficient_funds}
use challenge_senior.Wallet.Laws.{IsLedger}

pub record InMemoryRepository : Type 0 where
  pub balances : GoMap ℤ

unfoldable pub new_in_memory_repository : InMemoryRepository
new_in_memory_repository = record { balances = [] }

unfoldable pub get_balance : String → Action InMemoryRepository ℤ
get_balance user r = (ok (index (pos 0) user r.balances), r)

unfoldable pub set_balance : String → ℤ → Action InMemoryRepository (Unit {0})
set_balance user amount r = (ok tt, record r { balances = insert user amount r.balances })

unfoldable pub debit_if_sufficient_funds : String → ℤ → Action InMemoryRepository (Unit {0})
unfolding validate_sufficient_funds
debit_if_sufficient_funds user amount r =
    let cur = index (pos 0) user r.balances in
    elim (validate_sufficient_funds cur amount) [
      | some e ↦ (err e, r)
      | none ↦ (ok tt, record r { balances = insert user (sub64 cur amount) r.balances })
    ]

abbrev pub in_memory_repository : Repository InMemoryRepository
in_memory_repository = record {
  get_balance = get_balance;
  set_balance = set_balance;
  debit_if_sufficient_funds = debit_if_sufficient_funds;
}

abbrev pub held_in_memory : InMemoryRepository → String → ℤ
held_in_memory r u = index (pos 0) u r.balances

-- The wallet repository in memory keeps the contract that the service relies on.
pub in_memory_repository-IsLedger : IsLedger in_memory_repository held_in_memory
unfolding get_balance set_balance debit_if_sufficient_funds
in_memory_repository-IsLedger = record {
  get_lem = λ u s. refl;
  set_lem = λ u a s j. index-insert (pos 0) u j a s.balances;
  set_outcome = λ u a s. tt;
  debit_short = λ u a s p h. ground arith;
  debit_lem = λ u a s j p h.
      ground (arith, index-insert (pos 0) u j (sub64 (index (pos 0) u s.balances) a) s.balances);
  debit_outcome = λ u a s p h. ground arith;
}
