-- ===== src/Tests/Systems.antt =====
-- The whole program on a database in memory: a payment is asked for and the wallet is debited.
use challenge_senior.Prelude.{
  ℕ, String, true, ◌≡◌, refl, inl, if◌then◌else◌, ◌==◌, none, some, [], ◌∷◌, arith,
}
use challenge_senior.Prelude.Int.{ℤ, pos}
use challenge_senior.Prelude.GoMap.{lookup, index}
use challenge_senior.Kit.Errors.{made}
use challenge_senior.Kit.Action.{on}
use challenge_senior.Kit.Context.{background}
use challenge_senior.Kit.Gateway.{fake_gateway}
use challenge_senior.Kit.Observability.{new_metrics}
use challenge_senior.Kit.Store as EventStore
use challenge_senior.Wallet as Wal
use challenge_senior.Wallet.Memory as WalletMemory
use challenge_senior.Payment as Pay
use challenge_senior.Payment.Memory as PaymentMemory
use challenge_senior.ReadModels.{new_projector}
use challenge_senior.System.{Parts, Moment, post_payment}
use challenge_senior.Web.Payment.{CreatePaymentReq, Times}
use challenge_senior.System.Money.{PaymentsById, IsDatabase}
use challenge_senior.System.Money.Runs.{Run, IsStart}
use challenge_senior.Prelude.{map, false}
use challenge_senior.Kit.Action.{ok}
use challenge_senior.Kit.Bus.{
  Bus, Handler, publish, subscribe, shard_of, new_bus, new_with_config, checked_config,
}
use challenge_senior.Kit.Bus.Publishing.{IsQueued}
use challenge_senior.Kit.Bus.Publishing as Publishing
use challenge_senior.Events.{Event, payment_pending}
use challenge_senior.System.{Subscriber, deliveries, wired_bus}
use challenge_senior.System.Wiring.{publish-deliveries}
use challenge_senior.System.{subscriptions, subscribed}
use challenge_senior.System.Consumers.{consumer_bus, but_read_model, consumers_call_alike}
use challenge_senior.Tests.{json}

-- Wallets and payments side by side.
abbrev pub Memory : Type 0
Memory = WalletMemory.InMemoryRepository × PaymentMemory.InMemoryRepository

abbrev pub wallets : Wal.Repository Memory
wallets = record {
  get_balance = λ u. on (λ d. d.0) (λ d w. (w, d.1)) (WalletMemory.get_balance u);
  set_balance = λ u a. on (λ d. d.0) (λ d w. (w, d.1)) (WalletMemory.set_balance u a);
  debit_if_sufficient_funds =
      λ u a. on (λ d. d.0) (λ d w. (w, d.1)) (WalletMemory.debit_if_sufficient_funds u a);
}

abbrev pub payments : Pay.Repository Memory
payments = record {
  save = λ p. on (λ d. d.1) (λ d r. (d.0, r)) (PaymentMemory.save p);
  get = λ i. on (λ d. d.1) (λ d r. (d.0, r)) (PaymentMemory.get i);
}

abbrev pub held_in_pair : Memory → String → ℤ
held_in_pair d = WalletMemory.held_in_memory d.0

abbrev pub stored_in_pair : Memory → PaymentsById
stored_in_pair d = PaymentMemory.stored_in_memory d.1

pub memory-IsDatabase : IsDatabase wallets payments held_in_pair stored_in_pair
unfolding WalletMemory.get_balance WalletMemory.set_balance WalletMemory.debit_if_sufficient_funds
    PaymentMemory.save PaymentMemory.get
memory-IsDatabase =
    let ledger = WalletMemory.in_memory_repository-IsLedger in
    let store = PaymentMemory.in_memory_repository-IsStore in
    record {
      ledger = record {
        get_lem = λ u d. refl;
        set_lem = λ u a d j. ledger.set_lem u a d.0 j;
        set_outcome = λ u a d. tt;
        debit_short = λ u a d p h. rw (ledger.debit_short u a d.0 p h);
        debit_lem = λ u a d j p h. ledger.debit_lem u a d.0 j p h;
        debit_outcome = λ u a d p h. ledger.debit_outcome u a d.0 p h;
      };
      store = record {
        get_lem = λ i d. rw (store.get_lem i d.1);
        save_lem = λ p d j. store.save_lem p d.1 j;
        save_outcome = λ p d. refl;
      };
      save_apart = λ p d u. refl;
      set_apart = λ u a d i. refl;
      debit_apart = λ u a d i. refl;
      debit_saved = λ u a d p h. ground arith;
      set_saved = λ u a d. refl;
    }

abbrev pub program : Parts json Memory (Unit {0})
program = record {
  wallets = wallets;
  payments = payments;
  gateway = fake_gateway;
  audit_line = λ now event_name fs. inl (made "no line");
}

-- Ann has put 100 into the wallet.
abbrev pub begun : Run json Memory (Unit {0})
begun = record {
  app = record {
    db = (record { balances = ("ann", pos 100) ∷ [] }, record { payments = [] });
    gateway = tt;
    metrics = some new_metrics;
    projector = new_projector;
    health = none;
    outside = record { store = EventStore.new; log = some []; audit_file = some []; pending = [] };
  };
  deposited = λ u. if "ann" == u then 100 else 0;
  spent = λ u. 0;
  undone = λ u. 0;
  revived = λ u. 0;
}

abbrev pub moment : Moment
moment = record { ctx = background; now = 5; later = 6; written = true; line_written = none }

abbrev pub wanted : CreatePaymentReq
wanted = record { payment_id = "p1"; user_id = "ann"; amount = pos 40; service = "gas" }

abbrev pub at_once : Times
at_once = record { asked = 1; begun = 2; done = 3; created = 4 }

pub begun-IsStart : IsStart program held_in_pair stored_in_pair begun
unfolding index lookup
begun-IsStart = record {
  quiet = refl;
  no_payments = λ i. refl;
  solvent = λ u. ground arith;
  unspent = λ u. refl;
  none_undone = λ u. refl;
  none_revived = λ u. refl;
  in_wallet = λ u. ground arith;
  bounded = λ u. ground arith;
}

abbrev pub after_creation : Run json Memory (Unit {0})
after_creation = record begun { app = (post_payment program moment at_once wanted begun.app).1 }

-- Handlers that do nothing.
abbrev quiet_handler : Subscriber → Handler ℕ
quiet_handler h ctx evt n = (ok tt, n)

abbrev waits : Event
waits = payment_pending (record { payment_id = "p1"; user_id = "ann"; at = 3 })

abbrev sum : String → ℕ
sum s = 5

publish-deliveries_example :
    (b : Bus ℕ) × (publish sum (λ n. false) background waits (wired_bus quiet_handler 4)
      ≡ some ([], b))
    × IsQueued sum
        (λ n. false)
        background
        waits
        (shard_of sum (wired_bus quiet_handler 4) waits)
        (Publishing.deliveries background waits 0
          (map (λ d. quiet_handler d.subscriber) (deliveries waits)))
        (wired_bus quiet_handler 4)
        b
unfolding wired_bus deliveries new_bus new_with_config checked_config subscribe
publish-deliveries_example =
    publish-deliveries quiet_handler 4 sum (λ n. false) background waits (wired_bus quiet_handler 4)
      refl refl (omega arith)

consumers_call_alike_example :
    (index [] "payment.failed" (wired_bus quiet_handler 4).handlers
      ≡ map quiet_handler (subscribed "payment.failed" subscriptions))
    × (index [] "payment.failed" (consumer_bus quiet_handler 2).handlers
        ≡ map quiet_handler (but_read_model (subscribed "payment.failed" subscriptions)))
consumers_call_alike_example = consumers_call_alike quiet_handler 4 2 "payment.failed"
