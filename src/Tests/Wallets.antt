-- ===== src/Tests/Wallets.antt =====
-- The wallet's theorems on wallets with something in them.
use challenge_senior.Prelude.{true, false, ◌≡◌, refl, ◌⊎◌, none, some, [], ◌∷◌, arith, ◌^◌, ◌-◌}
use challenge_senior.Prelude.Int.{pos, ◌≤ℤ◌, ◌<ℤ◌, ◌-ℤ◌, ◌+ℤ◌}
use challenge_senior.Prelude.Int64.{IsInt64, add64}
use challenge_senior.Kit.Errors.{sentinel, insufficient_funds}
use challenge_senior.Kit.Action.{ok, err}
use challenge_senior.Kit.MockClient.{Client, internal_error}
use challenge_senior.Kit.MockClient.Exec.{persist_wallets_locked, with_wallets_json_file}
use challenge_senior.Kit.MockClient.Persistence.{load-persist}
use challenge_senior.Kit.Observability.{bump, new_metrics, wallet_debits_add}
use challenge_senior.Prelude.GoMap.{index}
use challenge_senior.Wallet.{Wallet, credit, debit, refund}
use challenge_senior.Wallet.Laws.{IsLedger}
use challenge_senior.Wallet.Service.{is_bad, bad_request, Wrote, credit_lem, debit_lem}
use challenge_senior.Wallet.Safety.{refund-debit, credit_overflow}
use challenge_senior.Wallet.Memory.{
  InMemoryRepository, in_memory_repository, held_in_memory, in_memory_repository-IsLedger,
  debit_if_sufficient_funds,
}
use challenge_senior.Wallet.File.{file_repository, held_in_file, file_repository-IsLedger}
use challenge_senior.Wallet.Sql.{
  sql_repository, held_in_client, sql_repository-IsLedger, sql_debit_if_sufficient_funds,
}
use challenge_senior.Tests.{Disk, disk, full_disk, empty_disk, disk-FilesWork}

-- Ann has 100.
abbrev hers : Wallet InMemoryRepository
hers = record { repo = record { balances = ("ann", pos 100) ∷ [] }; metrics = some new_metrics }

hers-IsInt64 : IsInt64 (held_in_memory hers.repo "ann")
unfolding index
hers-IsInt64 = ground arith

forty-IsInt64 : IsInt64 (pos 40)
forty-IsInt64 = ground arith

credit_lem_example :
    ((is_bad "ann" (pos 40) ≡ true)
      × (credit in_memory_repository "ann" (pos 40) hers ≡ (err bad_request, hers)))
    ⊎ ((is_bad "ann" (pos 40) ≡ false)
        × Wrote held_in_memory "ann"
            (add64 (pos 100) (pos 40))
            (some new_metrics)
            hers
            "bob"
            (credit in_memory_repository "ann" (pos 40) hers))
unfolding index
credit_lem_example =
    credit_lem in_memory_repository held_in_memory in_memory_repository-IsLedger "ann" (pos 40) hers
      "bob"

debit_lem_example :
    ((is_bad "ann" (pos 40) ≡ true)
      × (debit in_memory_repository "ann" (pos 40) hers ≡ (err bad_request, hers)))
    ⊎ ((is_bad "ann" (pos 40) ≡ false)
        × (pos 100 <ℤ pos 40)
        × (debit in_memory_repository "ann" (pos 40) hers
            ≡ (err (sentinel insufficient_funds), hers)))
    ⊎ ((is_bad "ann" (pos 40) ≡ false)
        × (pos 40 ≤ℤ pos 100)
        × Wrote held_in_memory "ann"
            (pos 100 -ℤ pos 40)
            (bump (wallet_debits_add (pos 1)) (some new_metrics))
            hers
            "ann"
            (debit in_memory_repository "ann" (pos 40) hers))
unfolding index
debit_lem_example =
    debit_lem in_memory_repository held_in_memory in_memory_repository-IsLedger "ann" (pos 40) hers
      "ann" hers-IsInt64 forty-IsInt64

paid : (debit in_memory_repository "ann" (pos 40) hers).0 ≡ ok tt
unfolding debit debit_if_sufficient_funds index
paid = refl

refund-debit_example :
    held_in_memory
      (refund in_memory_repository "ann"
        (pos 40)
        (debit in_memory_repository "ann" (pos 40) hers).1).1.repo
      "ann"
    ≡ pos 100
unfolding index
refund-debit_example =
    refund-debit in_memory_repository held_in_memory in_memory_repository-IsLedger "ann" (pos 40)
      hers "ann" hers-IsInt64 forty-IsInt64 paid

-- Ann has all that fits.
abbrev hers_full : Wallet InMemoryRepository
hers_full = record { repo = record { balances = ("ann", pos (2 ^ 63 - 1)) ∷ [] }; metrics = none }

credit_overflow_example :
    held_in_memory (credit in_memory_repository "ann" (pos 1) hers_full).1.repo "ann" <ℤ pos 0
unfolding index ◌+ℤ◌
credit_overflow_example =
    credit_overflow in_memory_repository held_in_memory in_memory_repository-IsLedger "ann" (pos 1)
      hers_full (ground arith) (ground arith) refl (ground arith)

-- Ann has 100 in a client that saves to a file.
abbrev pub client : Client Disk
client = record {
  wallets = ("ann", pos 100) ∷ [];
  payments = [];
  wallets_persist_path = "wallets.json";
  world = empty_disk;
}

abbrev pub sql_hers : Wallet (Client Disk)
sql_hers = record { repo = client; metrics = none }

unsaved :
    (debit (sql_repository full_disk) "ann" (pos 40) sql_hers).0
    ≡ err (internal_error "no space left on device")
unfolding debit sql_debit_if_sufficient_funds persist_wallets_locked index
unsaved = refl

file_repository-IsLedger_example : IsLedger (file_repository full_disk) (held_in_file full_disk)
file_repository-IsLedger_example = file_repository-IsLedger full_disk

sql_repository-IsLedger_example : IsLedger (sql_repository full_disk) (held_in_client {W = Disk})
sql_repository-IsLedger_example = sql_repository-IsLedger full_disk

saved_well : (persist_wallets_locked disk client).0 ≡ ok tt
unfolding persist_wallets_locked index
saved_well = refl

-- A new client after a restart.
abbrev restarted : Client Disk
restarted = record client { wallets = []; world = (persist_wallets_locked disk client).1.world }

load-persist_example :
    with_wallets_json_file disk "wallets.json" restarted
    ≡ (ok tt, record restarted { wallets = ("ann", pos 100) ∷ [] })
load-persist_example = load-persist disk client restarted disk-FilesWork refl saved_well refl
