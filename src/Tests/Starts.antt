-- ===== src/Tests/Starts.antt =====
-- The start of cmd/web/main.go after a run that appended three events and saved ann's wallet.
use challenge_senior.Prelude.{ℕ, String, ◌≡◌, refl, inr, none, some, List, [], ◌∷◌}
use challenge_senior.Prelude.Int.{pos}
use challenge_senior.Prelude.GoMap.{index}
use challenge_senior.Kit.Action.{ok}
use challenge_senior.Kit.Codec.{Record}
use challenge_senior.Kit.Gateway.{new_breaker}
use challenge_senior.Kit.Logger.{new_logger}
use challenge_senior.Kit.Store.{new_with_file}
use challenge_senior.Kit.Store.Replay.{append_all}
use challenge_senior.Kit.MockClient.{Client}
use challenge_senior.Kit.MockClient.Exec.{persist_wallets_locked}
use challenge_senior.Events.{Event, payment_pending, wallet_credited, wallet_debited}
use challenge_senior.ReadModels.{new_projector}
use challenge_senior.ReadModels.Replay.{apply_all}
use challenge_senior.System.Start.{start, wallets_path}
use challenge_senior.System.Start.Restart.{events_in, reopened, start-persist}
use challenge_senior.Tests.{Disk, disk, empty_disk, disk-FilesWork, json, json-RoundTrips}

abbrev appended : List (ℕ × String × Event)
appended =
    (1, "p1", payment_pending (record { payment_id = "p1"; user_id = "ann"; at = 1 }))
    ∷ (2, "ann", wallet_credited (record { user_id = "ann"; amount = pos 140; at = 2 }))
    ∷ (
      3,
      "p1",
      wallet_debited (record { payment_id = "p1"; user_id = "ann"; amount = pos 40; at = 3 }),
    )
    ∷ []

abbrev hers : Client Disk
hers = record {
  wallets = ("ann", pos 100) ∷ [];
  payments = [];
  wallets_persist_path = wallets_path;
  world = empty_disk;
}

saved : (persist_wallets_locked disk hers).0 ≡ ok tt
unfolding persist_wallets_locked index
saved = refl

start-persist_example :
    let s = append_all json appended (new_with_file json []).1 in
    (ls : List (Record Event)) × (s.file ≡ some ls)
    × (start json disk (record {
      store_lines = ls;
      made = none;
      opened = inr [];
      world = (persist_wallets_locked disk hers).1.world;
    })
        ≡ inr (record {
          store = s;
          audit = record { logger = some new_logger; f = some [] };
          breaker = new_breaker;
          db = reopened disk hers;
          projector = apply_all (events_in appended) new_projector;
        }))
start-persist_example =
    start-persist json disk json-RoundTrips (λ e. (e, refl)) (λ r. (r, refl)) appended hers []
      disk-FilesWork refl saved
