-- ===== src/Lib.antt =====
-- A payment workflow driven by events. A user's request creates a payment; the consumers debit the
-- user's wallet, charge a payment gateway, mark the payment succeeded, rejected or failed, refund
-- what was taken for a payment that failed, and recover what failed for a while. A store keeps the
-- events, and a read model shows payments and wallets from them.
--
-- Where each part stands, with paths from the repository's root:
--   Events        internal/events/events.go: the events, their names, their partition keys
--   Kit           kit: Errors (kit/db/errors.go and the other packages' error values), MockClient
--                 (kit/db/mock_client.go: `Exec`, `QueryRow`, `Scan`, saving and loading wallets),
--                 Store (kit/db/store.go), Gateway (kit/external_payment_gateway/gateway.go: the fake
--                 gateway and the circuit breaker), Observability and Logger (kit/observability),
--                 Bus (kit/broker/bus.go: handlers, shards, retries)
--   Wallet        internal/wallet: the service (`Credit`, `Debit`, `Refund`, `Balance`) over any
--                 repository; Memory, Sql and File are three repositories
--   Payment       internal/payment: the service (`Initialize`, the four `Mark`s, `Get`) over any
--                 repository; Memory and Sql are two repositories
--   Consumers     cmd/consumers/handlers: one module to a handler file; Transitions, Counting,
--                 Compensation, DebitRetries, RefundRetries and the modules below PaymentEvent
--                 and WalletEvent hold theorems
--   ReadModels    internal/readmodels/projector.go: Replay and Views hold theorems
--   Health        internal/health/service.go: the checks and the answer that is kept
--   Services      internal/notification, internal/recovery, internal/metrics; Audit is internal/audit
--   Web           cmd/web/handlers and cmd/web/validator: Payment and Wallet are the handlers of those
--                 files; Creation and Shown hold theorems
--   System        cmd/web/main.go: the subscriptions, the objects that the handlers share, and what
--                 one delivery or request does to the whole program; Checks, the two checks of the
--                 health; Start, the start up to the replay; Consumers, the bus of
--                 cmd/consumers/main.go; Wiring, Audited, Start.Restart and the modules below
--                 Money hold theorems
--   Tests         concrete disks, encodings, wallets and events, with each theorem at one of them
--   Prelude       numbers, Go's int64 and maps, and the names that the modules share
--
-- How the code is rendered. A method is a function on the state of its object that returns a
-- result (a value, an error or a panic) and the new state; the state that an error leaves comes
-- back too. A method under a lock is one step. `Append` of the store has two locked sections, which
-- are one step here: overlapping calls, whose lines may then change places in the file, are not
-- modelled. An int64 is an integer, with sums and differences
-- wrapped to 64 bits. A time or a duration is a number of nanoseconds, and a method that reads the
-- clock takes what it reads as an argument `now`; attempts and the breaker's settings are numbers,
-- so negative settings, which the code replaces by defaults as it does 0, are not told apart from
-- 0. An error is a sentinel, an error made on the spot, or what `errors.Join` and `fmt.Errorf`
-- wrap, and `is` is `errors.Is`. A repository, a gateway, a bus and a store are parameters where
-- the code takes an interface. A service that drops the results of `Append` and `Publish` takes
-- them as functions on the world outside it, which is a type parameter.
--
-- What the code takes from elsewhere is a parameter: Kit.Os is the file system and the JSON of the
-- wallets, Kit.Codec the JSON of events and of the store's lines; FilesWork and RoundTrips say
-- what is relied on. Kit.Context keeps of a context its error and its deadline.
--
-- The bus. A send is a step of Kit.Bus.Queues, as is a worker's taking of a delivery; a `Publish`
-- that would block has no result in the state in which it would. The hash of hash/fnv is a
-- parameter.
--
-- Fuel. The loop of a charge (Consumers.PaymentEvent) runs on the rounds left to the fifth attempt
-- and one, `enough`: each round is one attempt more, and from the fifth on there is no other. The
-- retries of a delivery (Kit.Bus) run on any fuel; each round is one call, and the limit on the
-- attempts, where there is one, ends them.
--
-- The whole program. System joins the handlers as cmd/web/main.go does. The database of the wallets
-- and the payments is one state; a handler's context, its clock and the outcomes of writes to files
-- are given by a `Moment`, so every call may meet any. What a `Publish` queues waits in one list, from
-- which System.Money.Runs takes a delivery at any place: this allows every order that the shards of
-- the bus allow, and more. A delivery whose handler fails waits again, as it does on the bus that
-- `New` makes, which has no limit on the attempts.
--
-- Overlapping calls. The bus runs its shards at once, beside the HTTP requests, and a step is a whole
-- call. A payment is written only by the request that creates it and by the deliveries of its own key,
-- which share a shard and come one after the other, and a wallet by one call of the repository under
-- its lock, so a call is a step at the time of its write. But `Credit` and `Refund` read the balance
-- and write the sum under two locks, and others may write the balance in between: what such a call
-- read is an argument of its step in System.Money.Runs (`seen`, `late`), any balance that is not
-- below 0, and a run keeps what each write on an older balance undid. What else overlapping calls
-- may do (the order of the store's records, the steps between the first change of a call and its
-- last) is not modelled, and elsewhere than in System.Money a call reads what it writes upon.
--
-- Beside the program, a run keeps for every user what has been put in, what the payments whose charge
-- succeeded have cost, and what was undone and revived. That the writes of the database succeed is an
-- assumption of System.Money; the wallets and payments in memory meet it, as does the program's
-- database as long as it can save its file, and RefundRetries and DebitRetries show what happens when
-- it cannot. A check of the health sees its context alone: what the gateway's check does
-- to the circuit breaker is in System.Checks, and not in a run.
--
-- Not modelled: the calls of the standard logger in the handlers; net/http, its routes and servers;
-- of cmd/web/main.go the ticker that logs the counters, and the end; cmd/consumers/main.go but for
-- its subscriptions; the configuration; a wallets file that holds `null`; the limit of bufio.Scanner
-- on the length of a line of the store's file, and errors of opening that file. The write to the
-- store's file, whose error the code only logs, succeeds or fails by an argument. A registration of
-- the metrics' interface that holds a nil pointer is the same as no metrics.
pub mod Prelude
pub mod Events
pub mod Kit
pub mod Wallet
pub mod Payment
pub mod Consumers
pub mod ReadModels
pub mod Health
pub mod Services
pub mod Web
pub mod System
pub mod Tests
