-- ===== src/Consumers/NotificationEvent.antt =====
-- cmd/consumers/handlers/notification_event.go, over any notifier: what `Notify` does to the world.
use challenge_senior.Prelude.{String, Option, none, some}
use challenge_senior.Kit.Action.{ok, err, Action}
use challenge_senior.Events.{Event, payment_succeeded, payment_failed}
use challenge_senior.Consumers.{unexpected}

-- What follows the test that there is a notifier.
abbrev pub note_completed : {T : Type 0} → (String → String → T → T) → Event → Action T (Unit {0})
note_completed notify (payment_succeeded e) t = (ok tt, notify e.user_id "payment completed" t)
note_completed notify evt t = (err (unexpected evt), t)

abbrev pub note_failed : {T : Type 0} → (String → String → T → T) → Event → Action T (Unit {0})
note_failed notify (payment_failed e) t = (ok tt, notify e.user_id "payment failed" t)
note_failed notify evt t = (err (unexpected evt), t)

module _ {T : Type 0} (notifier : Option (String → String → T → T)) where
  unfoldable pub handle_payment_completed : Event → Action T (Unit {0})
  handle_payment_completed evt t = elim notifier [
    | none ↦ (ok tt, t)
    | some notify ↦ note_completed notify evt t
  ]

  unfoldable pub handle_payment_failed : Event → Action T (Unit {0})
  handle_payment_failed evt t = elim notifier [
    | none ↦ (ok tt, t)
    | some notify ↦ note_failed notify evt t
  ]
