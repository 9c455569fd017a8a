-- ===== src/Kit/Logger.antt =====
-- kit/observability/logger.go: what has been logged, the first line first. The time in front of a
-- line is left out.
use challenge_senior.Prelude.{ℕ, String, Option, none, some, List, [], ◌∷◌, ◌++◌}
use challenge_senior.Prelude.Int.{ℤ}
use challenge_senior.Prelude.GoMap.{GoMap}
use challenge_senior.Events.{Event}

-- A value of a `map[string]any` as the handlers fill it.
pub data Field : Type 0 where
  text : String → Field
  number : ℤ → Field
  count : ℕ → Field

-- An argument of the logger.
pub data Value : Type 0 where
  plain : String → Value
  fields : GoMap Field → Value
  payload : Event → Value

pub record LogLine : Type 0 where
  pub level : String
  pub msg : String
  pub kv : List (String × Value)

abbrev pub Logger : Type 0
Logger = List LogLine

unfoldable pub new_logger : Logger
new_logger = []

unfoldable pub info : String → List (String × Value) → Logger → Logger
info msg kv lg = lg ++ record { level = "INFO"; msg = msg; kv = kv } ∷ []

unfoldable pub error : String → List (String × Value) → Logger → Logger
error msg kv lg = lg ++ record { level = "ERROR"; msg = msg; kv = kv } ∷ []

-- A call through a pointer that may be nil, where the code tests it.
abbrev pub logging : (Logger → Logger) → Option Logger → Option Logger
logging f none = none
logging f (some lg) = some (f lg)
