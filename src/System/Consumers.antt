-- ===== src/System/Consumers.antt =====
-- cmd/consumers/main.go: the subscriptions of the consumers' process.
use challenge_senior.Prelude.{
  ℕ, map, String, Bool, true, false, ◌≡◌, refl, ap, ◌∙◌, inl, inr, List, [], ◌∷◌, if◌then◌else◌,
  ◌==◌, Bool-cases,
}
use challenge_senior.Prelude.GoMap.{index}
use challenge_senior.Kit.Bus.{Bus, Handler, new_bus, new_with_config}
use challenge_senior.System.Wiring.{subscribed-subscribe_all}
use challenge_senior.System.{
  subscribe_all, wired_bus, Subscriber, subscriptions, subscribed, gateway_charge_requested,
  result_charge_succeeded, result_charge_failed, recovery_recovery_requested,
  wallet_payment_initialized, wallet_debit_requested, wallet_refund_requested,
  wallet_wallet_debited, wallet_wallet_refunded, flow_debit_rejected, flow_wallet_debited,
  audit_any, projector_apply, metrics_any, notification_completed, notification_failed,
}

-- The calls of `bus.Subscribe`, in their order.
abbrev pub consumer_subscriptions : List (String × Subscriber)
consumer_subscriptions =
    ("payment.charge_requested", gateway_charge_requested)
    ∷ ("payment.charge_succeeded", result_charge_succeeded)
    ∷ ("payment.charge_failed", result_charge_failed)
    ∷ ("recovery.requested", recovery_recovery_requested)
    ∷ ("payment.initialized", wallet_payment_initialized)
    ∷ ("wallet.debit_requested", wallet_debit_requested)
    ∷ ("wallet.debit_rejected", flow_debit_rejected)
    ∷ ("wallet.debited", flow_wallet_debited)
    ∷ ("wallet.refund_requested", wallet_refund_requested)
    ∷ ("payment.created", audit_any)
    ∷ ("payment.initialized", audit_any)
    ∷ ("payment.pending", audit_any)
    ∷ ("payment.rejected", audit_any)
    ∷ ("wallet.debited", audit_any)
    ∷ ("wallet.refunded", audit_any)
    ∷ ("recovery.requested", audit_any)
    ∷ ("payment.completed", audit_any)
    ∷ ("payment.failed", audit_any)
    ∷ ("payment.created", metrics_any)
    ∷ ("wallet.debited", metrics_any)
    ∷ ("wallet.refunded", metrics_any)
    ∷ ("payment.completed", metrics_any)
    ∷ ("payment.failed", metrics_any)
    ∷ ("payment.completed", notification_completed)
    ∷ ("payment.failed", notification_failed)
    ∷ ("wallet.debited", wallet_wallet_debited)
    ∷ ("wallet.refunded", wallet_wallet_refunded)
    ∷ []

-- The bus as `main` leaves it.
unfoldable pub consumer_bus : {W : Type 0} → (Subscriber → Handler W) → ℕ → Bus W
unfolding subscribe_all
consumer_bus f procs = subscribe_all f consumer_subscriptions (new_bus procs)

abbrev pub is_read_model : Subscriber → Bool
is_read_model projector_apply = true
is_read_model _ = false

-- The subscribers other than the read model, and their subscriptions.
abbrev pub but_read_model : List Subscriber → List Subscriber
but_read_model [] = []
but_read_model (h ∷ hs) = if is_read_model h then but_read_model hs else h ∷ but_read_model hs

abbrev apart : List (String × Subscriber) → List (String × Subscriber)
apart [] = []
apart ((n, h) ∷ hs) = if is_read_model h then apart hs else (n, h) ∷ apart hs

subscribed-apart :
    (n : String) (hs : List (String × Subscriber))
    → subscribed n (apart hs) ≡ but_read_model (subscribed n hs)
subscribed-apart n [] = refl
subscribed-apart n ((m, h) ∷ hs) = elim (Bool-cases (is_read_model h)) [
  | inl model ↦ elim (Bool-cases (m == n)) [
    | inl same ↦ rw (same, model) (subscribed-apart n hs)
    | inr other ↦ rw (other, model) (subscribed-apart n hs)
  ]
  | inr handler ↦ elim (Bool-cases (m == n)) [
    | inl same ↦ rw (handler, same, handler) (ap (λ l. h ∷ l) (subscribed-apart n hs))
    | inr other ↦ rw (handler, other) (subscribed-apart n hs)
  ]
]

-- Whatever the methods are, and for every name of an event, the bus of the web process holds
-- the methods that its subscriptions list for the name, and the bus of the consumers' process
-- holds the same, in the same order, without the read model's.
pub consumers_call_alike :
    {W : Type 0} (f : Subscriber → Handler W) (procs procs' : ℕ) (n : String)
    → (index [] n (wired_bus f procs).handlers ≡ map f (subscribed n subscriptions))
      × (index [] n (consumer_bus f procs').handlers
          ≡ map f (but_read_model (subscribed n subscriptions)))
unfolding consumer_bus wired_bus new_bus new_with_config index
consumers_call_alike f procs procs' n = (
  subscribed-subscribe_all f n subscriptions (new_bus procs),
  subscribed-subscribe_all f n consumer_subscriptions (new_bus procs')
      ∙ ap (map f) (subscribed-apart n subscriptions),
)
