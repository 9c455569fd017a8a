-- ===== src/System/Start/Restart.antt =====
-- What the start of cmd/web/main.go finds of an earlier run: the event store and the wallets, and
-- none of the payments.
use mathlib.Core.Path.{subst}
use challenge_senior.Prelude.{
  ℕ, String, true, ◌≡◌, refl, ap, sym, ◌∙◌, inr, none, some, List, [], ◌∷◌, ◌==◌,
}
use challenge_senior.Kit.Action.{ok}
use challenge_senior.Kit.Logger.{new_logger}
use challenge_senior.Kit.Gateway.{new_breaker}
use challenge_senior.Kit.Os.{Os, FilesWork}
use challenge_senior.Kit.Codec.{Codec, Record, RoundTrips}
use challenge_senior.Kit.Store.{Store, new_with_file}
use challenge_senior.Kit.Store.Replay.{Call, append_calls, append_all, new_with_file-append_all}
use challenge_senior.Kit.MockClient.{Client}
use challenge_senior.Kit.MockClient.Exec.{
  new_mock_client, with_wallets_json_file, with_wallets_json_persistence, empty_client,
  persist_wallets_locked, apply_options,
}
use challenge_senior.Kit.MockClient.Persistence.{load-persist}
use challenge_senior.Services.Audit.{new_service_with_file}
use challenge_senior.Events.{Event}
use challenge_senior.ReadModels.{new_projector, replay}
use challenge_senior.ReadModels.Replay.{apply_all, events_of, replay-append_calls}
use challenge_senior.System.Start.{start, wallets_path}

-- Calls of `Append` whose writes succeed.
abbrev written : List (ℕ × String × Event) → List Call
written [] = []
written ((now, aggregate, evt) ∷ calls) = (true, now, aggregate, evt) ∷ written calls

abbrev pub events_in : List (ℕ × String × Event) → List Event
events_in [] = []
events_in ((now, aggregate, evt) ∷ calls) = evt ∷ events_in calls

append_calls-written :
    (c : Codec) (calls : List (ℕ × String × Event)) (s : Store c.Payload c.Line)
    → append_calls c (written calls) s ≡ append_all c calls s
unfolding append_calls append_all
append_calls-written c [] s = refl
append_calls-written c ((now, aggregate, evt) ∷ calls) s = append_calls-written c calls _

events_of-written :
    (calls : List (ℕ × String × Event)) → events_of (written calls) ≡ events_in calls
events_of-written [] = refl
events_of-written ((now, aggregate, evt) ∷ calls) = ap (λ l. evt ∷ l) (events_of-written calls)

-- The wallets' database as it is opened where the wallets of `w` have been saved.
abbrev pub reopened : (os : Os) → Client os.World → Client os.World
reopened os w = record {
  wallets = w.wallets;
  payments = [];
  wallets_persist_path = wallets_path;
  world = (persist_wallets_locked os w).1.world;
}

reopen :
    (os : Os) (w : Client os.World)
    → FilesWork os
    → w.wallets_persist_path ≡ wallets_path
    → (persist_wallets_locked os w).0 ≡ ok tt
    → new_mock_client
        (with_wallets_json_file os wallets_path ∷ with_wallets_json_persistence wallets_path ∷ [])
        (persist_wallets_locked os w).1.world
      ≡ (ok tt, reopened os w)
unfolding new_mock_client empty_client with_wallets_json_persistence apply_options
reopen os w works path saved =
    let d : Client os.World = empty_client (persist_wallets_locked os w).1.world in
    let loads : with_wallets_json_file os wallets_path d
        ≡ (ok tt, record d { wallets = w.wallets }) =
      subst (λ q. with_wallets_json_file os q d ≡ (ok tt, record d { wallets = w.wallets })) path
        (load-persist os w d works (ap (λ q. q == "") path) saved refl) in
    rw loads refl

module _ (c : Codec) (os : Os) (trips : RoundTrips c)
    (encodes : (e : Event) → (b : c.Payload) × (c.marshal e ≡ inr b))
    (writes : (r : Record c.Payload) → (l : c.Line) × (c.write_line r ≡ inr l)) where
  replayed :
      (calls : List (ℕ × String × Event))
      → replay c (append_all c calls (new_with_file c []).1) new_projector
        ≡ (ok tt, apply_all (events_in calls) new_projector)
  unfolding replay new_with_file
  replayed calls =
      sym (ap (λ s. replay c s new_projector) (append_calls-written c calls (new_with_file c []).1))
      ∙ replay-append_calls c trips encodes (written calls) (new_with_file c []).1 new_projector
          new_projector refl
      ∙ ap (λ es. (ok tt, apply_all es new_projector)) (events_of-written calls)

  -- Where JSON encodes every event and record and decodes what it encoded, where files hold
  -- what is written to them, and where the audit's file opens: after a run that appended events
  -- to a store on an empty file, all writes succeeding, and saved the wallets with no error,
  -- `main` starts with the store of that run, the wallets that were saved, no payment in the
  -- database, a closed circuit, and the views of the read model that the events build.
  pub start-persist :
      (calls : List (ℕ × String × Event)) (w : Client os.World) (audits : List c.Line)
      → FilesWork os
      → w.wallets_persist_path ≡ wallets_path
      → (persist_wallets_locked os w).0 ≡ ok tt
      → let s = append_all c calls (new_with_file c []).1 in
        (ls : List c.Line) × (s.file ≡ some ls)
        × (start c os (record {
          store_lines = ls;
          made = none;
          opened = inr audits;
          world = (persist_wallets_locked os w).1.world;
        })
            ≡ inr (record {
              store = s;
              audit = record { logger = some new_logger; f = some audits };
              breaker = new_breaker;
              db = reopened os w;
              projector = apply_all (events_in calls) new_projector;
            }))
  unfolding start new_service_with_file
  start-persist calls w audits works path saved =
      let (ls, file, loads) = new_with_file-append_all c trips writes calls in
      (ls, file, rw (loads, reopen os w works path saved, replayed calls) refl)
