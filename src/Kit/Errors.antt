-- ===== src/Kit/Errors.antt =====
-- Go's error values as the program builds them (kit/db/errors.go, and the `errors.New` values of
-- the other packages, and of `context`): a sentinel, an error made on the spot, and what `errors.Join` and
-- `fmt.Errorf` with `%w` wrap.
use Prim.Native.String.{◌++◌ as text_append}
use challenge_senior.Prelude.{ℕ, String, Bool, ◌||◌, false, eqb}

pub data Sentinel : Type 0 where
  not_found conflict invalid internal : Sentinel
  invalid_request insufficient_funds invalid_payment : Sentinel
  timeout server client circuit_open : Sentinel
  unexpected_event_type unknown_recovery_action : Sentinel
  deadline_exceeded canceled : Sentinel

-- `made` is an error whose identity nothing tests: `errors.New` on the spot, or one of the system.
pub data Error : Type 0 where
  sentinel : Sentinel → Error
  made : String → Error
  join : Error → Error → Error
  wrap : Error → String → Error

abbrev pub code : Sentinel → ℕ
code not_found = 0
code conflict = 1
code invalid = 2
code internal = 3
code invalid_request = 4
code insufficient_funds = 5
code invalid_payment = 6
code timeout = 7
code server = 8
code client = 9
code circuit_open = 10
code unexpected_event_type = 11
code unknown_recovery_action = 12
code deadline_exceeded = 13
code canceled = 14

-- `errors.Is(err, target)` for a sentinel target.
unfoldable pub is : Error → Sentinel → Bool
is (sentinel s) t = eqb (code s) (code t)
is (made m) t = false
is (join e f) t = is e t || is f t
is (wrap e m) t = is e t

unfoldable pub is_not_found : Error → Bool
unfolding is
is_not_found e = is e not_found

unfoldable pub is_conflict : Error → Bool
unfolding is
is_conflict e = is e conflict

unfoldable pub is_invalid : Error → Bool
unfolding is
is_invalid e = is e invalid

unfoldable pub is_internal : Error → Bool
unfolding is
is_internal e = is e internal

abbrev pub sentinel_text : Sentinel → String
sentinel_text not_found = "db: not found"
sentinel_text conflict = "db: conflict"
sentinel_text invalid = "db: invalid"
sentinel_text internal = "db: internal"
sentinel_text invalid_request = "invalid request"
sentinel_text insufficient_funds = "insufficient funds"
sentinel_text invalid_payment = "invalid payment"
sentinel_text timeout = "gateway timeout"
sentinel_text server = "gateway 5xx"
sentinel_text client = "gateway 4xx"
sentinel_text circuit_open = "circuit open"
sentinel_text unexpected_event_type = "unexpected"
sentinel_text unknown_recovery_action = "unknown"
sentinel_text deadline_exceeded = "context deadline exceeded"
sentinel_text canceled = "context canceled"

-- `err.Error()`
unfoldable pub message : Error → String
message (sentinel s) = sentinel_text s
message (made m) = m
message (join e f) = text_append (message e) (text_append "\n" (message f))
message (wrap e m) = text_append (message e) m
