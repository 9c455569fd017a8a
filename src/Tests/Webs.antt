-- ===== src/Tests/Webs.antt =====
-- The web handlers' theorems, and those of the refunds and of the audit, on requests and events.
use challenge_senior.Prelude.{ℕ, true, false, ◌≡◌, refl, Option, none, some, List, [], ◌∷◌}
use challenge_senior.Prelude.Int.{pos}
use challenge_senior.Prelude.GoMap.{lookup, index}
use challenge_senior.Kit.Context.{background}
use challenge_senior.Kit.Logger.{text}
use challenge_senior.Kit.MockClient.{Client, internal_error}
use challenge_senior.Kit.MockClient.Exec.{exec_wallet_upsert, persist_wallets_locked}
use challenge_senior.Kit.Bus.{BusConfig, Processed, process_delivery}
use challenge_senior.Events.{Event, WalletRefundRequested, payment_pending, partition_key, name}
use challenge_senior.Wallet.Sql.{
  sql_repository, held_in_client, sql_repository-IsLedger, sql_set_balance,
}
use challenge_senior.Payment.Memory.{
  InMemoryRepository, in_memory_repository, stored_in_memory, in_memory_repository-IsStore,
}
use challenge_senior.Payment.Service.{Mark, pending, succeeded}
use challenge_senior.Payment.Marks.{perform_all}
use challenge_senior.Payment as Pay
use challenge_senior.ReadModels.{Projector, new_projector, get_payment}
use challenge_senior.Consumers.WalletEvent as Purse
use challenge_senior.Consumers.AuditEvent.{audit_fields}
use challenge_senior.Consumers.RefundRetries.{
  refund_delivery, added_times, unsaved_refund_is_paid_each_time,
}
use challenge_senior.Web.{Decoder}
use challenge_senior.Web.Payment.{CreatePaymentReq, Parts, State, Times, create_payment, get_by_id}
use challenge_senior.Web.Shown.{projected, web_parts, shown_alike}
use challenge_senior.System.Audited.{audited_payment}
use challenge_senior.Tests.{Disk, full_disk, empty_disk}
use challenge_senior.Tests.Payments.{keep, parts, stored_p1}

-- A body that is what it decodes to.
abbrev decoder : Decoder (Option CreatePaymentReq) CreatePaymentReq
decoder = record { first = λ n b. b; ended = λ n b. true }

abbrev wanted : CreatePaymentReq
wanted = record { payment_id = "p9"; user_id = "ann"; amount = pos 30; service = "gas" }

abbrev handler : Parts InMemoryRepository (List Event)
handler = record { service = parts; append = λ i. keep; publish = keep }

abbrev idle : State InMemoryRepository (List Event)
idle = record { payments = stored_p1; health = none; rm = none }

abbrev at_once : Times
at_once = record { asked = 1; begun = 2; done = 3; created = 4 }

abbrev shown_empty : Pay.State InMemoryRepository Projector
shown_empty = record { repo = record { payments = [] }; outside = new_projector; metrics = none }

abbrev steps : List (ℕ × Mark)
steps = (5, pending) ∷ (6, succeeded "gw_p9") ∷ []

abbrev shown_after : Pay.State InMemoryRepository Projector
shown_after =
    perform_all (projected in_memory_repository) "p9" steps
      (create_payment (web_parts in_memory_repository) 4 wanted shown_empty).1

shown_alike_example :
    (get_by_id
      (web_parts in_memory_repository)
      "p9"
      (record { payments = shown_after; health = none; rm = some shown_after.outside })).0
    ≡ (get_by_id
        (web_parts in_memory_repository)
        "p9"
        (record { payments = shown_after; health = none; rm = none })).0
unfolding get_payment lookup new_projector
shown_alike_example =
    shown_alike in_memory_repository stored_in_memory in_memory_repository-IsStore 4 wanted steps
      shown_empty refl refl

audited_payment_example :
    lookup "payment_id"
      (audit_fields (payment_pending (record { payment_id = "p1"; user_id = "ann"; at = 3 })))
    ≡ some (text "p1")
unfolding name partition_key
audited_payment_example =
    audited_payment (payment_pending (record { payment_id = "p1"; user_id = "ann"; at = 3 })) refl

abbrev full_parts : Purse.Parts (Client Disk) (List Event)
full_parts = record { repository = sql_repository full_disk; publish = keep }

abbrev on_full_disk : Purse.State (Client Disk) (List Event)
on_full_disk = record {
  wallet = record {
    repo = record {
      wallets = ("ann", pos 60) ∷ [];
      payments = [];
      wallets_persist_path = "wallets.json";
      world = empty_disk;
    };
    metrics = none;
  };
  outside = [];
}

abbrev back : WalletRefundRequested
back = record { payment_id = "p1"; user_id = "ann"; amount = pos 40; at = 0 }

abbrev three : BusConfig
three = record {
  shard_count = 1;
  buffer_per_shard = 8;
  retry_backoff = 5;
  retry_backoff_max = 9;
  max_attempts = 3;
}

abbrev IsPersisted : Client Disk → Type 0
IsPersisted c = c.wallets_persist_path ≡ "wallets.json"

unsaved_refund_is_paid_each_time_example :
    (p : Processed (Purse.State (Client Disk) (List Event))) × (process_delivery three
        (λ m. false)
        (refund_delivery full_parts 7 background back)
        3
        on_full_disk
      ≡ some p)
    × (p.calls ≡ 3)
    × (held_in_client p.world.wallet.repo "ann" ≡ added_times 3 (pos 40) (pos 60))
unfolding sql_set_balance exec_wallet_upsert persist_wallets_locked index
unsaved_refund_is_paid_each_time_example =
    unsaved_refund_is_paid_each_time full_parts (held_in_client {W = Disk})
      (sql_repository-IsLedger full_disk) back (internal_error "no space left on device") refl
      IsPersisted (λ a s full. rw full) (λ a s full. rw full) three (λ m. false) 7 background 2
      on_full_disk (λ m. refl) refl refl
