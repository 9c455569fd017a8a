-- ===== src/Kit/Context.antt =====
-- What the program uses of the package `context`: an error once the context is done, and a
-- deadline. Times are nanoseconds.
use challenge_senior.Prelude.{ℕ, ◌+◌, Option, none, some, leb, if◌then◌else◌}
use challenge_senior.Kit.Errors.{Error, sentinel, deadline_exceeded}

abbrev pub millisecond : ℕ
millisecond = 1_000_000

-- `failure` is `ctx.Err()` of a context that is done for good.
pub record Context : Type 0 where
  pub failure : Option Error
  pub deadline : Option ℕ

abbrev pub background : Context
background = record { failure = none; deadline = none }

-- The earlier of two deadlines.
abbrev pub sooner : Option ℕ → ℕ → ℕ
sooner none b = b
sooner (some a) b = if leb a b then a else b

-- `context.WithTimeout(ctx, d)` at the time `now`
unfoldable pub with_timeout : Context → ℕ → ℕ → Context
with_timeout ctx d now = record ctx { deadline = some (sooner ctx.deadline (now + d)) }

-- `select { case <-ctx.Done(): … case <-time.After(d): … }` entered at `now`: the error and the
-- time at which the context was done, or none and the time at which the timer fired. A context
-- that is done at the timer's time wins.
abbrev pub race_deadline : Option ℕ → ℕ → ℕ → Option Error × ℕ
race_deadline none now d = (none, now + d)
race_deadline (some t) now d =
    if leb t now
    then (some (sentinel deadline_exceeded), now)
    else if leb t (now + d)
    then (some (sentinel deadline_exceeded), t)
    else (none, now + d)

unfoldable pub wait : Context → ℕ → ℕ → Option Error × ℕ
wait ctx d now = elim ctx.failure [
  | some e ↦ (some e, now)
  | none ↦ race_deadline ctx.deadline now d
]
