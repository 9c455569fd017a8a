-- ===== src/Wallet.antt =====
-- internal/wallet: the validators, the repository interface and the service over it. The two
-- repositories are in Memory and Sql; Laws states what the service relies on.
pub mod Laws
pub mod Service
pub mod Safety
pub mod Memory
pub mod Sql
pub mod File
use challenge_senior.Prelude.{String, ◌||◌, Option, none, some, if◌then◌else◌, ◌==◌}
use challenge_senior.Prelude.Int.{ℤ, pos, ltb_ℤ, leb_ℤ}
use challenge_senior.Prelude.Int64.{add64}
use challenge_senior.Kit.Errors.{
  Error, sentinel, join, invalid, invalid_request, insufficient_funds,
}
use challenge_senior.Kit.Action.{Action, check, join_invalid, raise_if, modify, on, ◌>>=◌, ◌>>◌}
use challenge_senior.Kit.Observability.{Metrics, bump, wallet_debits_add, wallet_refunds_add}

pub record CreditRequest : Type 0 where
  pub user_id : String
  pub amount : ℤ

unfoldable pub to_credit_request : String → ℤ → CreditRequest
to_credit_request user amount = record { user_id = user; amount = amount }

unfoldable pub validate_credit_request : CreditRequest → Option Error
validate_credit_request r =
    if r.user_id == "" || leb_ℤ r.amount (pos 0) then some (sentinel invalid_request) else none

unfoldable pub validate_sufficient_funds : ℤ → ℤ → Option Error
validate_sufficient_funds current amount =
    if leb_ℤ amount (pos 0)
    then some (sentinel invalid_request)
    else if ltb_ℤ current amount
    then some (sentinel insufficient_funds)
    else none

-- The `Repository` interface: each method on the repository's own state.
pub record Repository (S : Type 0) : Type 0 where
  pub get_balance : String → Action S ℤ
  pub set_balance : String → ℤ → Action S (Unit {0})
  pub debit_if_sufficient_funds : String → ℤ → Action S (Unit {0})

-- The service's state: its repository, and the counters unless the pointer is nil.
pub record Wallet (S : Type 0) : Type 0 where
  pub repo : S
  pub metrics : Option Metrics

-- `s.metrics.WalletDebits.Add(1)` and the like
abbrev pub add_metric : {S : Type 0} → (Metrics → Metrics) → Action (Wallet S) (Unit {0})
add_metric f = modify (λ w. record w { metrics = bump f w.metrics })

abbrev pub on_repo : {S A : Type 0} → Action S A → Action (Wallet S) A
on_repo = on (λ w. w.repo) (λ w s. record w { repo = s })

-- `Credit` and `Refund` read and write the balance under two locks of the repository. Here no other
-- call comes between the two; System.Money.late gives the read its own time.
module _ {S : Type 0} (repository : Repository S) where
  unfoldable pub credit : String → ℤ → Action (Wallet S) (Unit {0})
  unfolding validate_credit_request to_credit_request
  credit user amount = do
    check (join_invalid (validate_credit_request (to_credit_request user amount)))
    current ← on_repo (repository.get_balance user)
    on_repo (repository.set_balance user (add64 current amount))

  unfoldable pub debit : String → ℤ → Action (Wallet S) (Unit {0})
  debit user amount = do
    raise_if (user == "" || leb_ℤ amount (pos 0))
        (join (sentinel invalid) (sentinel invalid_request))
    on_repo (repository.debit_if_sufficient_funds user amount)
    add_metric (wallet_debits_add (pos 1))

  unfoldable pub refund : String → ℤ → Action (Wallet S) (Unit {0})
  refund user amount = do
    raise_if (user == "" || leb_ℤ amount (pos 0))
        (join (sentinel invalid) (sentinel invalid_request))
    current ← on_repo (repository.get_balance user)
    on_repo (repository.set_balance user (add64 current amount))
    add_metric (wallet_refunds_add (pos 1))

  unfoldable pub balance : String → Action (Wallet S) ℤ
  balance user = do
    raise_if (user == "") (join (sentinel invalid) (sentinel invalid_request))
    on_repo (repository.get_balance user)
