-- ===== src/Payment/Memory.antt =====
-- The `InMemoryRepository` of internal/payment/repository.go; it stores copies and hands out
-- copies, so a payment is a value.
use challenge_senior.Prelude.{String, Option, none, some, [], refl, arith}
use challenge_senior.Prelude.GoMap.{GoMap, lookup, insert, lookup-insert}
use challenge_senior.Kit.Errors.{sentinel, not_found}
use challenge_senior.Kit.Action.{ok, err, Action}
use challenge_senior.Payment.{Payment, Repository}
use challenge_senior.Payment.Laws.{IsStore}

pub record InMemoryRepository : Type 0 where
  pub payments : GoMap Payment

unfoldable pub new_in_memory_repository : InMemoryRepository
new_in_memory_repository = record { payments = [] }

unfoldable pub save : Payment → Action InMemoryRepository (Unit {0})
save p r = (ok tt, record r { payments = insert p.id p r.payments })

unfoldable pub get : String → Action InMemoryRepository Payment
get payment r = elim (lookup payment r.payments) [
  | none ↦ (err (sentinel not_found), r)
  | some p ↦ (ok p, r)
]

abbrev pub in_memory_repository : Repository InMemoryRepository
in_memory_repository = record { save = save; get = get }

abbrev pub stored_in_memory : InMemoryRepository → String → Option Payment
stored_in_memory r i = lookup i r.payments

-- The repository in memory is a map from ids to payments.
pub in_memory_repository-IsStore : IsStore in_memory_repository stored_in_memory
unfolding save get
in_memory_repository-IsStore = record {
  get_lem = λ i s. ground arith;
  save_lem = λ p s j. lookup-insert p.id j p s.payments;
  save_outcome = λ p s. refl;
}
