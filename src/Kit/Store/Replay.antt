-- ===== src/Kit/Store/Replay.antt =====
-- The event store of kit/db/store.go: its streams against its log, and a store that is opened again
-- on its file.
use challenge_senior.Prelude.{
  ℕ, String, Bool, true, ◌≡◌, refl, ◌∙◌, inl, inr, Option, some, List, [], ◌∷◌, ◌++◌, if◌then◌else◌,
  ◌==◌, Bool-cases, Either-cases, arith, eq_iff,
}
use challenge_senior.Prelude.GoMap.{index, index-insert}
use challenge_senior.Kit.Action.{ok, continue}
use challenge_senior.Kit.Codec.{Record, Codec, RoundTrips}
use challenge_senior.Kit.Store.{
  Store, remember, record_of, append, replay_lines, new_with_file, load, all,
}
use challenge_senior.Events.{Event}

-- The records of an aggregate, in the order of the log.
pub of_aggregate : {P : Type 0} → String → List (Record P) → List (Record P)
of_aggregate a [] = []
of_aggregate a (r ∷ rs) = if r.aggregate_id == a then r ∷ of_aggregate a rs else of_aggregate a rs

of_aggregate-snoc :
    {P : Type 0} (a : String) (rs : List (Record P)) (r : Record P)
    → of_aggregate a (rs ++ r ∷ [])
      ≡ (if r.aggregate_id == a then of_aggregate a rs ++ r ∷ [] else of_aggregate a rs)
unfolding of_aggregate
of_aggregate-snoc a [] r = ground arith
of_aggregate-snoc a (x ∷ rs) r = ground (arith, of_aggregate-snoc a rs r)

-- Every stream holds the log's records of its aggregate.
abbrev pub IsIndexed : {P L : Type 0} → Store P L → Type 0
IsIndexed s = (a : String) → index [] a s.streams ≡ of_aggregate a s.log

remember-IsIndexed :
    {P L : Type 0} (r : Record P) (s : Store P L) → IsIndexed s → IsIndexed (remember r s)
remember-IsIndexed r s h a = ground (
  arith,
  h a,
  h r.aggregate_id,
  eq_iff r.aggregate_id a,
  of_aggregate-snoc a s.log r,
  index-insert [] r.aggregate_id a (index [] r.aggregate_id s.streams ++ r ∷ []) s.streams,
)

-- Calls of `Append`: whether the write to the file succeeds, the clock, the aggregate and the event.
abbrev pub Call : Type 0
Call = Bool × ℕ × String × Event

module _ (c : Codec) where
  replay-IsIndexed :
      (ls : List c.Line) (s : Store c.Payload c.Line)
      → IsIndexed s
      → IsIndexed (replay_lines c ls s).1
  unfolding replay_lines
  replay-IsIndexed [] s h = h
  replay-IsIndexed (l ∷ ls) s h = elim (Bool-cases (c.is_blank l)) [
    | inl blank ↦ rw (blank, replay_lines) (replay-IsIndexed ls s h)
    | inr full ↦ elim (Either-cases (c.read_line l)) [
      | inl (text, bad) ↦ rw (full, bad, replay_lines) h
      | inr (r, good) ↦
          rw (full, good, replay_lines)
            (replay-IsIndexed ls (remember r s) (remember-IsIndexed r s h))
    ]
  ]

  -- Calls of `Append`, each with the clock, the aggregate and the event; the writes succeed.
  unfoldable pub append_all :
      List (ℕ × String × Event) → Store c.Payload c.Line → Store c.Payload c.Line
  append_all [] s = s
  append_all ((now, aggregate, evt) ∷ calls) s =
      append_all calls (append c true now aggregate evt s).1

  unfoldable pub append_calls : List Call → Store c.Payload c.Line → Store c.Payload c.Line
  append_calls [] s = s
  append_calls ((written, now, aggregate, evt) ∷ calls) s =
      append_calls calls (append c written now aggregate evt s).1

  append-IsIndexed :
      (written : Bool) (now : ℕ) (aggregate : String) (evt : Event) (s : Store c.Payload c.Line)
      → IsIndexed s
      → IsIndexed (append c written now aggregate evt s).1
  unfolding append
  append-IsIndexed written now aggregate evt s h = elim (Either-cases (c.marshal evt)) [
    | inl (text, bad) ↦ rw (bad, append) h
    | inr (b, good) ↦ rw (good, append) (remember-IsIndexed (record_of c aggregate evt now b) s h)
  ]

  append_calls-IsIndexed :
      (calls : List Call) (s : Store c.Payload c.Line)
      → IsIndexed s
      → IsIndexed (append_calls calls s)
  unfolding append_calls
  append_calls-IsIndexed [] s h = h
  append_calls-IsIndexed ((written, now, aggregate, evt) ∷ calls) s h =
      append_calls-IsIndexed calls (append c written now aggregate evt s).1
        (append-IsIndexed written now aggregate evt s h)

  -- On a store that was opened on any file, with any events appended since, whether or not the
  -- write of each to the file succeeds, `Load` gives the records of `All` that are of the
  -- aggregate, in their order.
  pub load-all :
      (ls : List c.Line) (calls : List Call) (a : String)
      → let s = append_calls calls (new_with_file c ls).1 in load a s ≡ of_aggregate a (all s)
  unfolding load all new_with_file
  load-all ls calls a =
      append_calls-IsIndexed calls (new_with_file c ls).1
        (replay-IsIndexed ls (record { streams = []; log = []; file = some ls })
          (λ b. unfold of_aggregate index in refl))
        a

  replay_lines-snoc :
      (ls : List c.Line) (l : c.Line) (s : Store c.Payload c.Line)
      → replay_lines c (ls ++ l ∷ []) s
        ≡ continue (replay_lines c ls s).0 (replay_lines c ls s).1 (λ _. replay_lines c (l ∷ []))
  unfolding replay_lines
  replay_lines-snoc [] l s = refl
  replay_lines-snoc (x ∷ ls) l s = elim (Bool-cases (c.is_blank x)) [
    | inl blank ↦ rw (blank, replay_lines) (replay_lines-snoc ls l s)
    | inr full ↦ elim (Either-cases (c.read_line x)) [
      | inl (text, bad) ↦ rw (full, bad, replay_lines)
      | inr (r, good) ↦ rw (full, good, replay_lines) (replay_lines-snoc ls l (remember r s))
    ]
  ]

module _ (c : Codec) (trips : RoundTrips c)
    (encodes : (r : Record c.Payload) → (l : c.Line) × (c.write_line r ≡ inr l)) where
  -- The lines of the file replay to the store, whatever file they are replayed for.
  abbrev IsWritten : List c.Line → Store c.Payload c.Line → Type 0
  IsWritten ls s =
      (s.file ≡ some ls)
      × ((f : Option (List c.Line))
          → replay_lines c ls (record { streams = []; log = []; file = f })
            ≡ (ok tt, record s { file = f }))

  replay_record :
      (r : Record c.Payload) (l : c.Line) (s : Store c.Payload c.Line)
      → c.write_line r ≡ inr l
      → replay_lines c (l ∷ []) s ≡ (ok tt, remember r s)
  unfolding replay_lines
  replay_record r l s e = rw (trips.line_not_blank r e, trips.line r e, replay_lines)

  append-IsWritten :
      (now : ℕ) (aggregate : String) (evt : Event) (ls : List c.Line) (s : Store c.Payload c.Line)
      → IsWritten ls s
      → (ls' : List c.Line) × IsWritten ls' (append c true now aggregate evt s).1
  unfolding append
  append-IsWritten now aggregate evt ls s h = elim (Either-cases (c.marshal evt)) [
    | inl (text, bad) ↦ (ls, rw (bad, append) h)
    | inr (b, good) ↦
        let r = record_of c aggregate evt now b in
        let (l, e) = encodes r in
        (
          ls ++ l ∷ [],
          rw (good, append)
              (
                rw (h.0, e),
                λ f.
                    replay_lines-snoc c ls l _
                    ∙ rw (h.1 f) (replay_record r l (record s { file = f }) e),
              ),
        )
  ]

  append_all-IsWritten :
      (calls : List (ℕ × String × Event)) (ls : List c.Line) (s : Store c.Payload c.Line)
      → IsWritten ls s
      → (ls' : List c.Line) × IsWritten ls' (append_all c calls s)
  unfolding append_all
  append_all-IsWritten [] ls s h = (ls, h)
  append_all-IsWritten ((now, aggregate, evt) ∷ calls) ls s h =
      let (ls', h') = append-IsWritten now aggregate evt ls s h in
      append_all-IsWritten calls ls' (append c true now aggregate evt s).1 h'

  -- Where JSON writes every record as a line and reads back what it wrote: a store that began
  -- on an empty file, and whose writes have all succeeded, is the store that is opened on the
  -- lines of its file.
  pub new_with_file-append_all :
      (calls : List (ℕ × String × Event))
      → (ls : List c.Line) × ((append_all c calls (new_with_file c []).1).file ≡ some ls)
        × (new_with_file c ls ≡ (ok tt, append_all c calls (new_with_file c []).1))
  unfolding new_with_file
  new_with_file-append_all calls =
      let (ls, held) =
        append_all-IsWritten calls [] (record { streams = []; log = []; file = some [] })
          (refl, λ f. unfold replay_lines in refl) in
      (ls, held.0, held.1 (some ls) ∙ rw (← held.0))
