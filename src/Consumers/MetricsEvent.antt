-- ===== src/Consumers/MetricsEvent.antt =====
-- cmd/consumers/handlers/metrics_event.go: the counters, driven by the events.
use challenge_senior.Prelude.{Option, none, some}
use challenge_senior.Prelude.Int.{pos}
use challenge_senior.Kit.Action.{ok, Action}
use challenge_senior.Kit.Observability.{
  Metrics, payments_created_add, payments_succeeded_add, payments_failed_add, wallet_debits_add,
  wallet_refunds_add,
}
use challenge_senior.Events.{
  Event, payment_created, payment_succeeded, payment_failed, wallet_debited, wallet_refunded,
}

-- The switch on the event's type.
unfoldable pub count_event : Event → Metrics → Metrics
count_event (payment_created e) m = payments_created_add (pos 1) m
count_event (payment_succeeded e) m = payments_succeeded_add (pos 1) m
count_event (payment_failed e) m = payments_failed_add (pos 1) m
count_event (wallet_debited e) m = wallet_debits_add (pos 1) m
count_event (wallet_refunded e) m = wallet_refunds_add (pos 1) m
count_event _ m = m

unfoldable pub handle_any : Event → Action (Option Metrics) (Unit {0})
unfolding count_event
handle_any evt none = (ok tt, none)
handle_any evt (some m) = (ok tt, some (count_event evt m))
