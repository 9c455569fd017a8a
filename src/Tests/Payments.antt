-- ===== src/Tests/Payments.antt =====
-- The payment's theorems on payments that have been made.
use challenge_senior.Prelude.{ℕ, ◌≡◌, refl, ◌⊎◌, none, some, List, [], ◌∷◌, ◌++◌}
use challenge_senior.Prelude.Int.{pos}
use challenge_senior.Kit.Errors.{sentinel, not_found}
use challenge_senior.Kit.Action.{ok, err}
use challenge_senior.Kit.Observability.{new_metrics}
use challenge_senior.Events.{Event}
use challenge_senior.Payment.{
  Payment, CreateRequest, Parts, State, status_succeeded, append_to, publish_to,
}
use challenge_senior.Payment.Laws.{IsStore}
use challenge_senior.Payment.Service.{
  Mark, pending, succeeded, failed, perform, marked, mark_event, mark_metrics, new_payment, Saved,
  perform_lem,
}
use challenge_senior.Payment.Marks.{perform_all, SamePayment, perform_all-SamePayment}
use challenge_senior.Payment.Memory.{
  InMemoryRepository, in_memory_repository, stored_in_memory, in_memory_repository-IsStore,
}
use challenge_senior.Payment.Sql.{sql_repository, stored_in_client, sql_repository-IsStore}
use challenge_senior.Prelude.GoMap.{lookup}
use challenge_senior.Consumers.Counting.{transition_counted_twice}
use challenge_senior.Consumers.MetricsEvent.{handle_any}
use challenge_senior.Tests.{Disk, disk}

-- Everything that is appended or published, in order.
abbrev pub keep : Event → List Event → List Event
keep evt t = t ++ evt ∷ []

abbrev pub parts : Parts InMemoryRepository (List Event)
parts = record { repository = in_memory_repository; append = some (λ i. keep); publish = some keep }

abbrev pub order : CreateRequest
order = record { payment_id = "p1"; user_id = "ann"; amount = pos 40; service = "gas" }

abbrev pub p1 : Payment
p1 = new_payment order

abbrev pub stored_p1 : State InMemoryRepository (List Event)
stored_p1 = record {
  repo = record { payments = ("p1", p1) ∷ ("p2", record p1 { id = "p2" }) ∷ [] };
  outside = [];
  metrics = some new_metrics;
}

pub p1_there : stored_in_memory stored_p1.repo "p1" ≡ some p1
unfolding lookup
p1_there = refl

perform_lem_example :
    ((stored_in_memory stored_p1.repo "p1" ≡ none)
      × (perform parts 7 "p1" (succeeded "gw_p1") stored_p1
          ≡ (err (sentinel not_found), stored_p1)))
    ⊎ ((p : Payment) × (stored_in_memory stored_p1.repo "p1" ≡ some p)
        × ((perform parts 7 "p1" (succeeded "gw_p1") stored_p1).0 ≡ ok tt)
        × Saved parts stored_in_memory in_memory_repository-IsStore
            (marked (succeeded "gw_p1") p)
            (publish_to parts.publish
              (mark_event 7 "p1" p.user_id (succeeded "gw_p1"))
              (append_to parts.append "p1" (mark_event 7 "p1" p.user_id (succeeded "gw_p1")) []))
            (mark_metrics (succeeded "gw_p1") (some new_metrics))
            stored_p1
            "p1"
            (perform parts 7 "p1" (succeeded "gw_p1") stored_p1).1)
perform_lem_example =
    perform_lem parts stored_in_memory in_memory_repository-IsStore 7 "p1" (succeeded "gw_p1")
      stored_p1 "p1"

abbrev pub steps : List (ℕ × Mark)
steps = (1, pending) ∷ (2, succeeded "gw_p1") ∷ []

perform_all-SamePayment_example :
    (q : Payment) × (stored_in_memory (perform_all parts "p1" steps stored_p1).repo "p1" ≡ some q)
    × SamePayment p1 q
    × (q.status ≡ status_succeeded)
perform_all-SamePayment_example =
    perform_all-SamePayment parts stored_in_memory in_memory_repository-IsStore "p1" steps stored_p1
      p1_there refl

sql_repository-IsStore_example : IsStore (sql_repository disk) (stored_in_client {W = Disk})
sql_repository-IsStore_example = sql_repository-IsStore disk

transition_counted_twice_example :
    (handle_any
      (mark_event 7 "p1" "ann" (failed "no"))
      (perform parts 7 "p1" (failed "no") stored_p1).1.metrics).1
    ≡ mark_metrics (failed "no") (mark_metrics (failed "no") (some new_metrics))
transition_counted_twice_example =
    transition_counted_twice parts stored_in_memory in_memory_repository-IsStore 7 "p1"
      (failed "no") stored_p1 p1_there
