-- ===== src/Tests/Workflow.antt =====
-- The handlers' theorems on events of one payment.
use challenge_senior.Prelude.{
  ℕ, ◌+◌, ◌*◌, String, false, ◌≡◌, refl, Option, none, some, List, [], ◌∷◌, arith,
}
use challenge_senior.Prelude.Int.{pos, ◌-ℤ◌}
use challenge_senior.Prelude.GoMap.{index}
use challenge_senior.Kit.Errors.{sentinel, canceled, is_internal}
use challenge_senior.Kit.Action.{Result, ok, err}
use challenge_senior.Kit.Context.{Context, background, millisecond}
use challenge_senior.Kit.MockClient.{Client, internal_error}
use challenge_senior.Kit.MockClient.Exec.{persist_wallets_locked}
use challenge_senior.Events.{
  Event, PaymentChargeRequested, WalletDebitRequested, WalletDebited, PaymentChargeFailed,
  RecoveryRequested, payment_charge_requested, wallet_debit_requested, payment_charge_failed,
}
use challenge_senior.Wallet.{debit}
use challenge_senior.Wallet.Memory.{
  InMemoryRepository, in_memory_repository, held_in_memory, in_memory_repository-IsLedger,
  debit_if_sufficient_funds,
}
use challenge_senior.Wallet.Sql.{
  sql_repository, held_in_client, sql_repository-IsLedger, sql_debit_if_sufficient_funds,
}
use challenge_senior.Payment.Memory.{stored_in_memory, in_memory_repository-IsStore}
use challenge_senior.Payment.Service.{marked, failed, after}
use challenge_senior.Consumers.PaymentEvent.{
  recovery_request, charge_failed, charge_succeeded, dlq_to, error_code, send, charge_loop,
  handle_charge_requested,
}
use challenge_senior.Consumers.PaymentEvent.Outcome.{Ends, handle_charge_requested_lem}
use challenge_senior.Consumers.PaymentEvent.FakeCharges.{fake_parts}
use challenge_senior.Consumers.WalletEvent.{
  debit_recovery, handle_wallet_debit_requested, handle_wallet_refund_requested,
}
use challenge_senior.Consumers.Compensation.{failed_charge_is_compensated}
use challenge_senior.Consumers.WalletEvent.Debits.{Answered, handle_wallet_debit_requested_lem}
use challenge_senior.Consumers.DebitRetries.{unsaved_debit_is_taken_twice}
use challenge_senior.Consumers.PaymentResultEvent.{handle_charge_failed, refund_request}
use challenge_senior.Consumers.RecoveryEvent.{default_sleep, debit_again, handle_recovery_requested}
use challenge_senior.Consumers.PaymentEvent as Charge
use challenge_senior.Consumers.WalletEvent as Debit
use challenge_senior.Tests.{Disk, full_disk, empty_disk}
use challenge_senior.Tests.Payments.{keep, parts, p1, stored_p1, p1_there}

abbrev charge : ℕ → PaymentChargeRequested
charge n = record {
  payment_id = "p1";
  user_id = "ann";
  amount = pos n;
  service = "gas";
  attempt = 1;
  at = 0;
}

abbrev dead_letter : Option (String → String → Event → List Event → List Event)
dead_letter = some (λ topic reason. keep)

abbrev idle : Charge.State (Unit {0}) (List Event)
idle = record { gateway_state = tt; now = 1_000; outside = [] }

handle_charge_requested_lem_example :
    (r : Result (Unit {0}) × Charge.State (Unit {0}) (List Event)) × (charge_loop
        (fake_parts keep dead_letter)
        5
        background
        (charge 7)
        1
        idle
      ≡ some r)
    × (handle_charge_requested
          (fake_parts keep dead_letter)
          background
          (payment_charge_requested (charge 7))
          idle
        ≡ r)
    × Ends (fake_parts keep dead_letter) (charge 7) [] r
handle_charge_requested_lem_example =
    handle_charge_requested_lem (fake_parts keep dead_letter) background (charge 7) idle

abbrev left : Context
left = record background { failure = some (sentinel canceled) }

abbrev forty : WalletDebitRequested
forty = record { payment_id = "p1"; user_id = "ann"; amount = pos 40; attempt = 1; at = 0 }

abbrev memory_parts : Debit.Parts InMemoryRepository (List Event)
memory_parts = record { repository = in_memory_repository; publish = keep }

abbrev hers : Debit.State InMemoryRepository (List Event)
hers = record {
  wallet = record { repo = record { balances = ("ann", pos 100) ∷ [] }; metrics = none };
  outside = [];
}

handle_wallet_debit_requested_lem_example :
    ((handle_wallet_debit_requested memory_parts 5 (wallet_debit_requested forty) hers).0 ≡ ok tt)
    × Answered memory_parts held_in_memory in_memory_repository-IsLedger 5 forty hers "ann"
        (handle_wallet_debit_requested memory_parts 5 (wallet_debit_requested forty) hers).1
unfolding index
handle_wallet_debit_requested_lem_example =
    handle_wallet_debit_requested_lem memory_parts held_in_memory in_memory_repository-IsLedger 5
      forty hers "ann" (ground arith) (ground arith)

-- Ann's 100 are in a client whose disk is full.
abbrev full_parts : Debit.Parts (Client Disk) (List Event)
full_parts = record { repository = sql_repository full_disk; publish = keep }

abbrev on_full_disk : Debit.State (Client Disk) (List Event)
on_full_disk = record {
  wallet = record {
    repo = record {
      wallets = ("ann", pos 100) ∷ [];
      payments = [];
      wallets_persist_path = "wallets.json";
      world = empty_disk;
    };
    metrics = none;
  };
  outside = [];
}

full :
    (debit (sql_repository full_disk) "ann" (pos 40) on_full_disk.wallet).0
    ≡ err (internal_error "no space left on device")
unfolding debit sql_debit_if_sufficient_funds persist_wallets_locked index
full = refl

unsaved_debit_is_taken_twice_example :
    let s =
      (handle_wallet_debit_requested full_parts 5 (wallet_debit_requested forty) on_full_disk).1 in
    let recovery = debit_recovery forty (internal_error "no space left on device") 5 in
    let again = debit_again p1 2 (6 + 60_000 * millisecond) in
    (s.outside ≡ recovery ∷ [])
    × (handle_recovery_requested parts keep default_sleep
          (60_000 * millisecond)
          background
          6
          recovery
          stored_p1
        ≡ (ok tt, record stored_p1 { outside = again ∷ [] }))
    × (held_in_client (handle_wallet_debit_requested full_parts 7 again s).1.wallet.repo "ann"
        ≡ pos 100 -ℤ pos 40 -ℤ pos 40)
unfolding index is_internal ◌-ℤ◌ default_sleep
unsaved_debit_is_taken_twice_example =
    unsaved_debit_is_taken_twice full_parts (held_in_client {W = Disk})
      (sql_repository-IsLedger full_disk) parts keep stored_in_memory in_memory_repository-IsStore
      default_sleep (60_000 * millisecond) 5 6 (6 + 60_000 * millisecond) 7 background forty
      on_full_disk stored_p1 refl p1_there refl refl refl (ground arith) (ground arith)
      (ground arith) full refl (ground arith)

abbrev taken : WalletDebited
taken = record { payment_id = "p1"; user_id = "ann"; amount = pos 40; at = 0 }

abbrev declined : PaymentChargeFailed
declined = record {
  payment_id = "p1";
  user_id = "ann";
  reason = "gateway 4xx";
  retryable = false;
  error_code = "4xx";
  at = 0;
}

paid : (debit in_memory_repository "ann" (pos 40) hers.wallet).0 ≡ ok tt
unfolding debit debit_if_sufficient_funds index
paid = refl

failed_charge_is_compensated_example :
    let w = (handle_wallet_debit_requested memory_parts 5 (wallet_debit_requested forty) hers).1 in
    let s = after parts 7 "p1" (failed "gateway 4xx") p1 stored_p1 in
    let (r, s') = handle_charge_failed parts keep 7 8 (payment_charge_failed declined) stored_p1 in
    (r ≡ ok tt)
    × (stored_in_memory s'.repo "p1" ≡ some (marked (failed "gateway 4xx") p1))
    × (s'.outside ≡ keep (refund_request p1 8) s.outside)
    × (held_in_memory
          (handle_wallet_refund_requested memory_parts 9 (refund_request p1 8) w).1.wallet.repo
          "ann"
        ≡ pos 100)
unfolding index
failed_charge_is_compensated_example =
    failed_charge_is_compensated memory_parts held_in_memory in_memory_repository-IsLedger parts
      keep stored_in_memory in_memory_repository-IsStore 5 7 8 9 forty declined hers stored_p1 "ann"
      p1_there refl refl refl (ground arith) (ground arith) paid

abbrev to_recover : RecoveryRequested
to_recover = record {
  payment_id = "p1";
  user_id = "ann";
  action = "payment.charge";
  reason = "";
  error_code = "408";
  attempts = 5;
  at = 0;
}
