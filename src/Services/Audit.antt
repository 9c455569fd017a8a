-- ===== src/Services/Audit.antt =====
-- internal/audit/service.go: a line in the log, and a line of JSON in a file, for each event. The
-- JSON of a line is a parameter, as are the outcomes of the calls on the file system.
use challenge_senior.Prelude.{ℕ, String, ◌⊎◌, inl, inr, Option, none, some, List, [], ◌∷◌, ◌++◌}
use challenge_senior.Prelude.GoMap.{GoMap}
use challenge_senior.Kit.Errors.{Error, message}
use challenge_senior.Kit.Action.{Result, ok, err, Action}
use challenge_senior.Kit.Logger.{Logger, Field, plain, fields, info, error, logging}

-- `Service`; `f` holds the lines of the file, unless there is none or it has been closed.
pub record Audit (Line : Type 0) : Type 0 where
  pub logger : Option Logger
  pub f : Option (List Line)

unfoldable pub new_service : {L : Type 0} → Option Logger → Audit L
new_service logger = record { logger = logger; f = none }

abbrev pub failed_call : String → String → Error → Logger → Logger
failed_call method path e = error "audit error" (
    ("layer", plain "service")
    ∷ ("component", plain "audit")
    ∷ ("method", plain method)
    ∷ ("path", plain path)
    ∷ ("error", plain (message e))
    ∷ [])

-- `NewServiceWithFile`, where `made` is the error of os.MkdirAll and `opened` what os.OpenFile
-- returns. A failure leaves the log alone behind, here as a service.
unfoldable pub new_service_with_file :
    {L : Type 0}
    → Option Error
    → Error ⊎ List L
    → String
    → Option Logger
    → Result (Unit {0}) × Audit L
unfolding new_service error
new_service_with_file (some e) opened path logger =
    (err e, new_service (logging (failed_call "NewServiceWithFile" path e) logger))
new_service_with_file none (inl e) path logger =
    (err e, new_service (logging (failed_call "NewServiceWithFile" path e) logger))
new_service_with_file none (inr ls) path logger = (ok tt, record { logger = logger; f = some ls })

abbrev pub failed_close : Error → Logger → Logger
failed_close e = error "audit error" (
    ("layer", plain "service")
    ∷ ("component", plain "audit")
    ∷ ("method", plain "Close")
    ∷ ("error", plain (message e))
    ∷ [])

-- `Close`, where `failure` is the error of closing the file.
unfoldable pub close : {L : Type 0} → Option Error → Action (Audit L) (Unit {0})
unfolding error
close failure s = elim s.f [
  | none ↦ (ok tt, s)
  | some ls ↦ elim failure [
    | none ↦ (ok tt, record s { f = none })
    | some e ↦ (err e, record { logger = logging (failed_close e) s.logger; f = none })
  ]
]

abbrev pub failed_record : String → Error → Logger → Logger
failed_record event_name e = error "audit error" (
    ("layer", plain "service")
    ∷ ("component", plain "audit")
    ∷ ("method", plain "Record")
    ∷ ("event", plain event_name)
    ∷ ("error", plain (message e))
    ∷ [])

-- The part of `Record` under the lock, with the log behind its first line. `written` is the error
-- of the write.
unfoldable pub write_line :
    {L : Type 0} → Option Error → String → Error ⊎ L → Logger → Option (List L) → Audit L
unfolding error
write_line written event_name line lg none = record { logger = some lg; f = none }
write_line written event_name (inl e) lg (some ls) = record {
  logger = some (failed_record event_name e lg);
  f = some ls;
}
write_line (some e) event_name (inr l) lg (some ls) = record {
  logger = some (failed_record event_name e lg);
  f = some ls;
}
write_line none event_name (inr l) lg (some ls) = record {
  logger = some lg;
  f = some (ls ++ l ∷ []);
}

module _ {L : Type 0} (marshal : ℕ → String → GoMap Field → Error ⊎ L) where
  -- `Record`; json.Marshal of the line is `marshal`, and `now` is the time in the line.
  unfoldable pub record_event : Option Error → ℕ → String → GoMap Field → Audit L → Audit L
  unfolding write_line info
  record_event written now event_name fs s = elim s.logger [
    | none ↦ s
    | some lg ↦
        write_line written event_name (marshal now event_name fs)
          (info "audit" (("event", plain event_name) ∷ ("fields", fields fs) ∷ []) lg) s.f
  ]
