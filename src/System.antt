-- ===== src/System.antt =====
-- cmd/web/main.go: how the program is put together, which handler is subscribed to which event.
-- cmd/consumers/main.go makes the same subscriptions but those of the read model.
--
-- The database of the wallets and the payments is one state, `D`. A delivery is an event for one
-- handler; the bus delivers what waits in an order that Kit.Bus.Queues limits, and here in any.
pub mod Wiring
pub mod Audited
pub mod Money
pub mod Checks
pub mod Consumers
pub mod Start
use challenge_senior.Prelude.{
  ℕ, ◌*◌, String, Bool, ◌⊎◌, Option, none, some, List, [], ◌∷◌, ◌++◌, map, if◌then◌else◌, ◌==◌,
}
use challenge_senior.Prelude.GoMap.{GoMap}
use challenge_senior.Kit.Errors.{Error}
use challenge_senior.Kit.Action.{Result, ok, err, panic, Action, on}
use challenge_senior.Kit.Context.{Context, millisecond}
use challenge_senior.Kit.Observability.{Metrics}
use challenge_senior.Kit.Logger.{Logger, Field}
use challenge_senior.Kit.Gateway.{Gateway}
use challenge_senior.Kit.Bus.{Bus, Handler, new_bus, subscribe}
use challenge_senior.Kit.Codec.{Codec}
use challenge_senior.Kit.Store.{Store}
use challenge_senior.Kit.Store as EventStore
use challenge_senior.Events.{Event, name}
use challenge_senior.Wallet as Wal
use challenge_senior.Payment as Pay
use challenge_senior.ReadModels.{Projector, apply}
use challenge_senior.Health.{Health}
use challenge_senior.Services.{notify, send_to_dlq}
use challenge_senior.Services.Audit.{Audit, record_event}
use challenge_senior.Consumers.PaymentEvent as Gate
use challenge_senior.Consumers.WalletEvent as Purse
use challenge_senior.Consumers.PaymentFlowEvent as Flow
use challenge_senior.Consumers.PaymentResultEvent as Outcome
use challenge_senior.Consumers.RecoveryEvent as Recovery
use challenge_senior.Consumers.AuditEvent as Audits
use challenge_senior.Consumers.MetricsEvent as Counts
use challenge_senior.Consumers.NotificationEvent as Notes
use challenge_senior.Web.{Response}
use challenge_senior.Web.Payment as WebPayment
use challenge_senior.Web.Wallet as WebWallet

-- The methods that are subscribed, by their handlers in `main`.
pub data Subscriber : Type 0 where
  gateway_charge_requested : Subscriber
  result_charge_succeeded result_charge_failed : Subscriber
  recovery_recovery_requested : Subscriber
  wallet_payment_initialized wallet_debit_requested wallet_refund_requested : Subscriber
  wallet_wallet_debited wallet_wallet_refunded : Subscriber
  flow_debit_rejected flow_wallet_debited : Subscriber
  audit_any projector_apply metrics_any : Subscriber
  notification_completed notification_failed : Subscriber

-- The calls of `bus.Subscribe`, in their order.
abbrev pub subscriptions : List (String × Subscriber)
subscriptions =
    ("payment.charge_requested", gateway_charge_requested)
    ∷ ("payment.charge_succeeded", result_charge_succeeded)
    ∷ ("payment.charge_failed", result_charge_failed)
    ∷ ("recovery.requested", recovery_recovery_requested)
    ∷ ("payment.initialized", wallet_payment_initialized)
    ∷ ("wallet.debit_requested", wallet_debit_requested)
    ∷ ("wallet.debit_rejected", flow_debit_rejected)
    ∷ ("wallet.debited", flow_wallet_debited)
    ∷ ("wallet.refund_requested", wallet_refund_requested)
    ∷ ("payment.created", audit_any)
    ∷ ("payment.initialized", audit_any)
    ∷ ("payment.pending", audit_any)
    ∷ ("payment.rejected", audit_any)
    ∷ ("wallet.debited", audit_any)
    ∷ ("wallet.refunded", audit_any)
    ∷ ("recovery.requested", audit_any)
    ∷ ("payment.completed", audit_any)
    ∷ ("payment.failed", audit_any)
    ∷ ("payment.created", projector_apply)
    ∷ ("payment.initialized", projector_apply)
    ∷ ("payment.pending", projector_apply)
    ∷ ("payment.rejected", projector_apply)
    ∷ ("payment.completed", projector_apply)
    ∷ ("payment.failed", projector_apply)
    ∷ ("wallet.credited", projector_apply)
    ∷ ("wallet.debited", projector_apply)
    ∷ ("wallet.refunded", projector_apply)
    ∷ ("payment.created", metrics_any)
    ∷ ("wallet.debited", metrics_any)
    ∷ ("wallet.refunded", metrics_any)
    ∷ ("payment.completed", metrics_any)
    ∷ ("payment.failed", metrics_any)
    ∷ ("payment.completed", notification_completed)
    ∷ ("payment.failed", notification_failed)
    ∷ ("wallet.debited", wallet_wallet_debited)
    ∷ ("wallet.refunded", wallet_wallet_refunded)
    ∷ []

-- What is subscribed to a name.
abbrev pub subscribed : String → List (String × Subscriber) → List Subscriber
subscribed n [] = []
subscribed n ((m, h) ∷ hs) = if m == n then h ∷ subscribed n hs else subscribed n hs

pub record Delivery : Type 0 where
  pub subscriber : Subscriber
  pub evt : Event

-- One delivery for each handler of the event's name.
unfoldable pub deliveries : Event → List Delivery
unfolding name
deliveries evt =
    map (λ h. record { subscriber = h; evt = evt }) (subscribed (name evt) subscriptions)

-- What one call meets: its context, what the clock reads, and the outcome of writes to files.
pub record Moment : Type 0 where
  pub ctx : Context
  pub now : ℕ
  pub later : ℕ
  pub written : Bool
  pub line_written : Option Error

module _ (c : Codec) where
  -- What the services reach past their repositories.
  pub record Outside : Type 0 where
    pub store : Store c.Payload c.Line
    pub log : Option Logger
    pub audit_file : Option (List c.Line)
    pub pending : List Delivery

  -- The parts that `main` chooses.
  pub record Parts (D G : Type 0) : Type 0 where
    pub wallets : Wal.Repository D
    pub payments : Pay.Repository D
    pub gateway : Gateway G
    pub audit_line : ℕ → String → GoMap Field → Error ⊎ c.Line

  pub record App (D G : Type 0) : Type 0 where
    pub db : D
    pub gateway : G
    pub metrics : Option Metrics
    pub projector : Projector
    pub health : Option Health
    pub outside : Outside

-- `bus.Publish`, whose errors every caller drops.
abbrev pub publish : {c : Codec} → Event → Outside c → Outside c
publish evt t = record t { pending = t.pending ++ deliveries evt }

-- `store.Append`, whose error every caller drops.
abbrev pub append : (c : Codec) → Moment → String → Event → Outside c → Outside c
append c m aggregate evt t = record t {
  store = (EventStore.append c m.written m.now aggregate evt t.store).1;
}

abbrev pub dead_letter : {c : Codec} → String → String → Event → Outside c → Outside c
dead_letter topic reason evt t = record t { log = send_to_dlq topic reason evt t.log }

abbrev pub tell : {c : Codec} → String → String → Outside c → Outside c
tell user msg t = record t { log = notify user msg t.log }

abbrev pub audited : {c : Codec} → Audit c.Line → Outside c → Outside c
audited s t = record t { log = s.logger; audit_file = s.f }

module _ {c : Codec} {D G : Type 0} (parts : Parts c D G) where
  abbrev pub keep_line : Moment → String → GoMap Field → Outside c → Outside c
  keep_line m event_name fs t =
      audited
        (record_event parts.audit_line m.line_written m.now event_name fs
          (record { logger = t.log; f = t.audit_file }))
        t

  -- The payment service and the parts of the handlers, at the time of one call.
  abbrev pub payment_parts : Moment → Pay.Parts D (Outside c)
  payment_parts m = record {
    repository = parts.payments;
    append = some (append c m);
    publish = some publish;
  }

  abbrev pub wallet_parts : Purse.Parts D (Outside c)
  wallet_parts = record { repository = parts.wallets; publish = publish }

  abbrev pub charge_parts : Gate.Parts G (Outside c)
  charge_parts = record {
    gateway = parts.gateway;
    publish = publish;
    send_to_dlq = some dead_letter;
  }

  abbrev pub web_parts : Moment → WebPayment.Parts D (Outside c)
  web_parts m = record { service = payment_parts m; append = append c m; publish = publish }

-- The objects share the database, the counters and the world outside.
module _ {c : Codec} {D G : Type 0} where
  abbrev pub on_payments : {A : Type 0} → Action (Pay.State D (Outside c)) A → Action (App c D G) A
  on_payments =
      on (λ a. record { repo = a.db; outside = a.outside; metrics = a.metrics })
        (λ a s. record a { db = s.repo; outside = s.outside; metrics = s.metrics })

  abbrev pub on_wallets : {A : Type 0} → Action (Purse.State D (Outside c)) A → Action (App c D G) A
  on_wallets =
      on (λ a. record { wallet = record { repo = a.db; metrics = a.metrics }; outside = a.outside })
        (λ a s. record a { db = s.wallet.repo; outside = s.outside; metrics = s.wallet.metrics })

  abbrev pub on_gateway :
      {A : Type 0} → ℕ → Action (Gate.State G (Outside c)) A → Action (App c D G) A
  on_gateway now =
      on (λ a. record { gateway_state = a.gateway; now = now; outside = a.outside })
        (λ a s. record a { gateway = s.gateway_state; outside = s.outside })

  abbrev pub on_outside : {A : Type 0} → Action (Outside c) A → Action (App c D G) A
  on_outside = on (λ a. a.outside) (λ a t. record a { outside = t })

-- The delay of the recovery handler: time.Minute.
abbrev pub minute : ℕ
minute = 60_000 * millisecond

module _ {c : Codec} {D G : Type 0} (parts : Parts c D G) where
  -- The call of one subscriber.
  unfoldable pub handle : Moment → Subscriber → Event → Action (App c D G) (Unit {0})
  handle m gateway_charge_requested evt =
      on_gateway m.now (Gate.handle_charge_requested (charge_parts parts) m.ctx evt)
  handle m result_charge_succeeded evt =
      on_payments (Outcome.handle_charge_succeeded (payment_parts parts m) publish m.now evt)
  handle m result_charge_failed evt =
      on_payments (Outcome.handle_charge_failed (payment_parts parts m) publish m.now m.later evt)
  handle m recovery_recovery_requested evt = on_payments (
      Recovery.handle_recovery_requested (payment_parts parts m) publish Recovery.default_sleep
        minute m.ctx m.now evt)
  handle m wallet_payment_initialized evt =
      on_wallets (Purse.handle_payment_initialized (wallet_parts parts) m.now evt)
  handle m wallet_debit_requested evt =
      on_wallets (Purse.handle_wallet_debit_requested (wallet_parts parts) m.now evt)
  handle m wallet_refund_requested evt =
      on_wallets (Purse.handle_wallet_refund_requested (wallet_parts parts) m.now evt)
  handle m wallet_wallet_debited evt = on_wallets (Purse.handle_wallet_debited evt)
  handle m wallet_wallet_refunded evt = on_wallets (Purse.handle_wallet_refunded evt)
  handle m flow_debit_rejected evt =
      on_payments (Flow.handle_wallet_debit_rejected (payment_parts parts m) publish m.now evt)
  handle m flow_wallet_debited evt =
      on_payments (Flow.handle_wallet_debited (payment_parts parts m) publish m.now m.later evt)
  handle m audit_any evt = on_outside (Audits.handle_any (some (keep_line parts m)) evt)
  handle m projector_apply evt = λ a. (ok tt, record a { projector = apply evt a.projector })
  handle m metrics_any evt =
      on (λ a. a.metrics) (λ a k. record a { metrics = k }) (Counts.handle_any evt)
  handle m notification_completed evt = on_outside (Notes.handle_payment_completed (some tell) evt)
  handle m notification_failed evt = on_outside (Notes.handle_payment_failed (some tell) evt)

  abbrev pub waiting : List Delivery → App c D G → App c D G
  waiting ds a = record a { outside = record a.outside { pending = ds } }

  -- A delivery whose handler fails is tried again.
  abbrev pub again : Delivery → Result (Unit {0}) × App c D G → App c D G
  again d (ok _, a) = a
  again d (err e, a) = waiting (d ∷ a.outside.pending) a
  again d (panic, a) = waiting (d ∷ a.outside.pending) a

  -- The delivery `d`, which waits between `before` and `after`, is handled. The call is one step,
  -- though the bus runs the handlers of different shards at once; System.Money.late has the reads of
  -- balances made before it.
  unfoldable pub deliver : Moment → List Delivery → Delivery → List Delivery → App c D G → App c D G
  unfolding handle
  deliver m before d after a = again d (handle m d.subscriber d.evt (waiting (before ++ after) a))

  -- A request to create a payment, and one to credit a wallet, once they have been decoded. Each is
  -- one step, as a delivery is.
  unfoldable pub post_payment :
      Moment → WebPayment.Times → WebPayment.CreatePaymentReq → Action (App c D G) Response
  post_payment m t req =
      on
        (λ a. record {
          payments = record { repo = a.db; outside = a.outside; metrics = a.metrics };
          health = a.health;
          rm = some a.projector;
        })
        (λ a s. record a {
          db = s.payments.repo;
          outside = s.payments.outside;
          metrics = s.payments.metrics;
          health = s.health;
        })
        (WebPayment.create_decoded (web_parts parts m) t m.ctx req)

  abbrev pub credit_parts : Moment → WebWallet.Parts D (Outside c)
  credit_parts m = record {
    repository = parts.wallets;
    append = some (append c m);
    publish = some publish;
  }

  unfoldable pub post_credit : Moment → WebWallet.CreditReq → Action (App c D G) Response
  post_credit m req =
      on
        (λ a. record {
          wallet = record { repo = a.db; metrics = a.metrics };
          outside = a.outside;
          rm = some a.projector;
        })
        (λ a s. record a { db = s.wallet.repo; outside = s.outside; metrics = s.wallet.metrics })
        (WebWallet.credit_decoded (credit_parts m) m.now req)

-- The calls of `bus.Subscribe`, in their order, where `f` gives each subscriber's method.
unfoldable pub subscribe_all :
    {W : Type 0} → (Subscriber → Handler W) → List (String × Subscriber) → Bus W → Bus W
subscribe_all f [] b = b
subscribe_all f ((n, h) ∷ hs) b = subscribe_all f hs (subscribe n (f h) b)

-- The bus as `main` leaves it, where `procs` is runtime.GOMAXPROCS(0).
unfoldable pub wired_bus : {W : Type 0} → (Subscriber → Handler W) → ℕ → Bus W
unfolding subscribe_all
wired_bus f procs = subscribe_all f subscriptions (new_bus procs)
