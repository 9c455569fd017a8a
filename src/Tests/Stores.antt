-- ===== src/Tests/Stores.antt =====
-- The event store's and the read model's theorems, on a few events.
use challenge_senior.Prelude.{ℕ, String, true, false, ◌≡◌, refl, some, List, [], ◌∷◌}
use challenge_senior.Prelude.Int.{pos}
use challenge_senior.Prelude.Int64.{wrap64}
use challenge_senior.Kit.Action.{ok}
use challenge_senior.Kit.Codec.{Record}
use challenge_senior.Kit.Store.{load, all, new_with_file}
use challenge_senior.Kit.Store.Replay.{
  Call, append_calls, of_aggregate, append_all, load-all, new_with_file-append_all,
}
use challenge_senior.Events.{Event, payment_pending, wallet_credited, wallet_debited}
use challenge_senior.ReadModels.{new_projector, replay}
use challenge_senior.ReadModels.Replay.{apply_all, replay-append_calls}
use challenge_senior.ReadModels.Views.{shown, net, shown-net}
use challenge_senior.Tests.{json, json-RoundTrips}

abbrev waits : Event
waits = payment_pending (record { payment_id = "p1"; user_id = "ann"; at = 1 })

abbrev earns : Event
earns = wallet_credited (record { user_id = "ann"; amount = pos 100; at = 2 })

abbrev pays : Event
pays = wallet_debited (record { payment_id = "p1"; user_id = "ann"; amount = pos 40; at = 3 })

abbrev calls : List (ℕ × String × Event)
calls = (1, "p1", waits) ∷ (2, "ann", earns) ∷ (3, "p1", pays) ∷ []

-- The second write fails.
abbrev tried : List Call
tried = (true, 1, "p1", waits) ∷ (false, 2, "ann", earns) ∷ (true, 3, "p1", pays) ∷ []

load-all_example :
    let s = append_calls json tried (new_with_file json []).1 in
    load "p1" s ≡ of_aggregate "p1" (all s)
load-all_example = load-all json [] tried "p1"

new_with_file-append_all_example :
    (ls : List (Record Event)) × ((append_all json calls (new_with_file json []).1).file ≡ some ls)
    × (new_with_file json ls ≡ (ok tt, append_all json calls (new_with_file json []).1))
new_with_file-append_all_example =
    new_with_file-append_all json json-RoundTrips (λ r. (r, refl)) calls

replay-append_calls_example :
    replay json (append_calls json tried (new_with_file json []).1) new_projector
    ≡ (ok tt, apply_all (waits ∷ earns ∷ pays ∷ []) new_projector)
unfolding replay new_with_file
replay-append_calls_example =
    replay-append_calls json json-RoundTrips (λ e. (e, refl)) tried (new_with_file json []).1
      new_projector new_projector refl

shown-net_example :
    shown "ann" (apply_all (waits ∷ earns ∷ pays ∷ []) new_projector)
    ≡ wrap64 (net "ann" (waits ∷ earns ∷ pays ∷ []) (pos 0))
shown-net_example = shown-net "ann" (waits ∷ earns ∷ pays ∷ [])
