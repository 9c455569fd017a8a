-- ===== src/System/Start.antt =====
-- cmd/web/main.go: the start, up to the read model's replay. What `main` finds on the disk is the
-- lines of the two files that it opens, and a file system in which the wallets' file stands. The
-- file of the store could be opened.
pub mod Restart
use challenge_senior.Prelude.{
  ℕ, String, true, false, ◌≡◌, refl, ap, sym, ◌∙◌, ◌⊎◌, inl, inr, Option, none, some, List, [], ◌∷◌,
  ◌==◌,
}
use challenge_senior.Kit.Errors.{Error, message}
use challenge_senior.Kit.Action.{Result, ok, err, panic}
use challenge_senior.Kit.Logger.{Logger, plain, new_logger, error, logging}
use challenge_senior.Kit.Gateway.{Breaker, new_breaker}
use challenge_senior.Kit.Os.{Os, FilesWork}
use challenge_senior.Kit.Codec.{Codec, Record, RoundTrips}
use challenge_senior.Kit.Store.{Store, new_with_file}
use challenge_senior.Kit.Store.Replay.{append_all, new_with_file-append_all}
use challenge_senior.Kit.MockClient.{Client}
use challenge_senior.Kit.MockClient.Exec.{
  new_mock_client, with_wallets_json_file, with_wallets_json_persistence, empty_client,
  persist_wallets_locked, apply_options,
}
use challenge_senior.Kit.MockClient.Persistence.{load-persist}
use challenge_senior.Services.Audit.{Audit, new_service_with_file}
use challenge_senior.Events.{Event}
use challenge_senior.ReadModels.{Projector, new_projector, replay}

-- `logger.Error(text, "error", err.Error())` and `return`, or go on.
abbrev pub or_stop :
    {A : Type 0}
    → String
    → Option Logger
    → Result (Unit {0})
    → Option Logger ⊎ A
    → Option Logger ⊎ A
or_stop text log (ok _) next = next
or_stop text log (err e) next = inl (logging (error text (("error", plain (message e)) ∷ [])) log)
or_stop text log panic next = inl log

abbrev pub wallets_path : String
wallets_path = "./out/wallets.json"

module _ (c : Codec) (os : Os) where
  -- `made` is the error of making the audit's directory, and `opened` what opening its file returns.
  pub record Disk : Type 0 where
    pub store_lines : List c.Line
    pub made : Option Error
    pub opened : Error ⊎ List c.Line
    pub world : os.World

  -- The objects of `main` that have a state, once it has replayed the store.
  pub record Started : Type 0 where
    pub store : Store c.Payload c.Line
    pub audit : Audit c.Line
    pub breaker : Breaker
    pub db : Client os.World
    pub projector : Projector

  -- What is logged where the start fails, or the objects.
  unfoldable pub start : Disk → Option Logger ⊎ Started
  unfolding new_logger error new_with_file new_service_with_file new_mock_client
      with_wallets_json_file with_wallets_json_persistence new_breaker new_projector replay
  start disk =
      let log : Option Logger = some new_logger in
      let (r, store) = new_with_file c disk.store_lines in
      let (a, audit) = new_service_with_file disk.made disk.opened "./out/audit.jsonl" log in
      let (d, db) =
        new_mock_client
          (with_wallets_json_file os wallets_path ∷ with_wallets_json_persistence wallets_path ∷ [])
          disk.world in
      let (p, projector) = replay c store new_projector in
      or_stop "db init error" log r (
        or_stop "audit init error" audit.logger a (
          or_stop "db init error" log d (
            or_stop "read model replay error" log p (
              inr (record {
                store = store;
                audit = audit;
                breaker = new_breaker;
                db = db;
                projector = projector;
              })))))
