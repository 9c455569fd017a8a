-- ===== src/Kit/Store.antt =====
-- kit/db/store.go: the event store, in memory and in a file of lines. A write to the file that
-- fails is logged by the code and otherwise dropped, so whether it succeeds is an argument.
pub mod Replay
use challenge_senior.Prelude.{
  ℕ, String, Bool, true, false, ◌⊎◌, inl, inr, Option, none, some, List, [], ◌∷◌, ◌++◌,
  if◌then◌else◌,
}
use challenge_senior.Prelude.GoMap.{GoMap, index, insert}
use challenge_senior.Kit.Errors.{Error, made}
use challenge_senior.Kit.Action.{Result, ok, err, panic, Action, ◌>>=◌, ◌>>◌}
use challenge_senior.Kit.Codec.{Record, Codec}
use challenge_senior.Events.{Event, name}

-- `file` holds the lines written so far, unless there is none or it has been closed.
pub record Store (Payload Line : Type 0) : Type 0 where
  pub streams : GoMap (List (Record Payload))
  pub log : List (Record Payload)
  pub file : Option (List Line)

unfoldable pub new : {P L : Type 0} → Store P L
new = record { streams = []; log = []; file = none }

-- A record at the end of its stream and of the log.
abbrev pub remember : {P L : Type 0} → Record P → Store P L → Store P L
remember rec s = record s {
  streams = insert rec.aggregate_id (index [] rec.aggregate_id s.streams ++ rec ∷ []) s.streams;
  log = s.log ++ rec ∷ [];
}

-- `f.Write(append(b, '\n'))`, where `written` says whether it succeeds
abbrev pub write_out : {L : Type 0} → Bool → String ⊎ L → List L → List L
write_out written (inl text) ls = ls
write_out written (inr l) ls = if written then ls ++ l ∷ [] else ls

abbrev pub on_file : {L : Type 0} → (List L → List L) → Option (List L) → Option (List L)
on_file f none = none
on_file f (some ls) = some (f ls)

module _ (c : Codec) where
  abbrev pub EventStore : Type 0
  EventStore = Store c.Payload c.Line

  abbrev pub record_of : String → Event → ℕ → c.Payload → Record c.Payload
  record_of aggregate evt now b = record {
    aggregate_id = aggregate;
    event_name = name evt;
    payload = b;
    occurred_at = now;
  }

  -- The source adds the record under one lock and writes its line under another; here the two are
  -- one step, so calls of `Append` do not overlap.
  unfoldable pub append : Bool → ℕ → String → Event → Action EventStore (Unit {0})
  append written now aggregate evt s = elim (c.marshal evt) [
    | inl text ↦ (err (made text), s)
    | inr b ↦
        let rec = record_of aggregate evt now b in
        let s' = remember rec s in
        (ok tt, record s' { file = on_file (write_out written (c.write_line rec)) s'.file })
  ]

  -- The loop of `replayFromFile` over the lines; an empty line is skipped, and the first that is
  -- no record stops it.
  unfoldable pub replay_lines : List c.Line → Action EventStore (Unit {0})
  replay_lines [] s = (ok tt, s)
  replay_lines (l ∷ ls) s = elim (c.is_blank l) [
    | true ↦ replay_lines ls s
    | false ↦ elim (c.read_line l) [
      | inl text ↦ (err (made text), s)
      | inr rec ↦ replay_lines ls (remember rec s)
    ]
  ]

  -- `NewWithFile` on a file that could be opened, with these lines in it.
  unfoldable pub new_with_file : List c.Line → Result (Unit {0}) × EventStore
  unfolding replay_lines
  new_with_file ls = replay_lines ls (record { streams = []; log = []; file = some ls })

unfoldable pub load : {P L : Type 0} → String → Store P L → List (Record P)
load aggregate s = index [] aggregate s.streams

unfoldable pub all : {P L : Type 0} → Store P L → List (Record P)
all s = s.log

-- `Close`, where `failure` is the error of closing the file.
unfoldable pub close : {P L : Type 0} → Option Error → Action (Store P L) (Unit {0})
close failure s = elim s.file [
  | none ↦ (ok tt, s)
  | some ls ↦ elim failure [
    | none ↦ (ok tt, record s { file = none })
    | some e ↦ (err e, record s { file = none })
  ]
]
