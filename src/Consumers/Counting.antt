-- ===== src/Consumers/Counting.antt =====
-- The counters of the services and of cmd/consumers/handlers/metrics_event.go. cmd/web/main.go and
-- cmd/consumers/main.go give both the same `Metrics`.
use challenge_senior.Prelude.{ℕ, String, ◌≡◌, refl, Option, none, some}
use challenge_senior.Kit.Observability.{Metrics}
use challenge_senior.Payment.{Payment, Parts, State}
use challenge_senior.Payment.Laws.{IsStore}
use challenge_senior.Payment.Service.{
  Mark, pending, rejected, succeeded, failed, perform, mark_event, mark_metrics, perform_stored,
}
use challenge_senior.Consumers.MetricsEvent.{handle_any}

-- Handling a transition's event counts what the service counts at the transition.
handle_any-mark :
    (now : ℕ) (i u : String) (m : Mark) (c : Option Metrics)
    → (handle_any (mark_event now i u m) c).1 ≡ mark_metrics m c
unfolding handle_any
handle_any-mark now i u pending none = refl
handle_any-mark now i u pending (some c) = refl
handle_any-mark now i u (rejected reason) none = refl
handle_any-mark now i u (rejected reason) (some c) = refl
handle_any-mark now i u (succeeded gateway) none = refl
handle_any-mark now i u (succeeded gateway) (some c) = refl
handle_any-mark now i u (failed reason) none = refl
handle_any-mark now i u (failed reason) (some c) = refl

-- Over any payment repository that is a map from ids to payments, a transition of a stored
-- payment, followed by the handling of its event on the same counters, changes them twice by
-- what the transition counts.
pub transition_counted_twice :
    {S T : Type 0} (parts : Parts S T) (stored : S → String → Option Payment)
    (laws : IsStore parts.repository stored) (now : ℕ) (i : String) (m : Mark) (s : State S T)
    {p : Payment}
    → stored s.repo i ≡ some p
    → (handle_any (mark_event now i p.user_id m) (perform parts now i m s).1.metrics).1
      ≡ mark_metrics m (mark_metrics m s.metrics)
transition_counted_twice parts stored laws now i m s {p} found =
    rw (perform_stored parts stored laws now i m s found)
      (handle_any-mark now i p.user_id m (mark_metrics m s.metrics))
