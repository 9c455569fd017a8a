-- ===== src/Web.antt =====
-- cmd/web: what the handlers answer, the validator of requests (cmd/web/validator) and the two
-- handlers that only read (health.go, metrics.go). encoding/json is a parameter.
pub mod Payment
pub mod Creation
pub mod Shown
pub mod Wallet
use Prim.Native.String.{slice, len}
use text.Mathlib.Text.{starts_with}
use challenge_senior.Prelude.{
  ℕ, ◌^◌, String, Bool, ◌⊎◌, inl, inr, Option, none, some, if◌then◌else◌,
}
use challenge_senior.Prelude.Int.{ℤ}
use challenge_senior.Prelude.GoMap.{GoMap}
use challenge_senior.Kit.Errors.{Error, made}
use challenge_senior.Kit.Observability.{Metrics}
use challenge_senior.Services.{snapshot}

-- A value of a JSON object that a handler encodes.
pub data Json : Type 0 where
  string : String → Json
  number : ℤ → Json
  object : GoMap String → Json

-- `line` is the body that `http.Error` writes.
pub data Body : Type 0 where
  empty : Body
  plain : String → Body
  line : String → Body
  json : GoMap Json → Body
  counters : GoMap ℤ → Body

pub record Response : Type 0 where
  pub status : ℕ
  pub body : Body

abbrev pub reply : ℕ → Body → Response
reply status body = record { status = status; body = body }

abbrev pub http_error : String → ℕ → Response
http_error msg status = reply status (line msg)

-- What the decoder of a body does, cut at so many bytes and with unknown fields refused: the value
-- that the first `Decode` sets, unless it fails, and whether the second returns io.EOF.
pub record Decoder (Bytes A : Type 0) : Type 0 where
  pub first : ℕ → Bytes → Option A
  pub ended : ℕ → Bytes → Bool

-- The validator `JSON`
pub record Validator : Type 0 where
  pub max_bytes : ℕ

unfoldable pub new_json : Validator
new_json = record { max_bytes = 2 ^ 20 }

abbrev pub invalid_json : Error
invalid_json = made "invalid json"

unfoldable pub decode : {B A : Type 0} → Decoder B A → Validator → B → Error ⊎ A
decode dec v body = elim (dec.first v.max_bytes body) [
  | none ↦ inl invalid_json
  | some a ↦ if dec.ended v.max_bytes body then inr a else inl invalid_json
]

-- strings.TrimPrefix
abbrev pub trim_prefix : String → String → String
trim_prefix s prefix = if starts_with s prefix then slice s (len prefix) (len s) else s

unfoldable pub health_handler : Response
health_handler = reply 200 (plain "ok")

unfoldable pub metrics_handler : Option Metrics → Response
unfolding snapshot
metrics_handler svc = reply 200 (counters (snapshot svc))
