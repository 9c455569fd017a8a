-- ===== src/ReadModels/Replay.antt =====
-- The views that replaying the event store builds (internal/readmodels/projector.go `Replay`), against
-- those of applying the events as they come (`Apply`).
use challenge_senior.Prelude.{ℕ, String, Bool, ◌≡◌, refl, inr, List, [], ◌∷◌, ◌++◌}
use challenge_senior.Kit.Action.{Result, ok, err, panic, continue}
use challenge_senior.Kit.Codec.{Record, Codec, RoundTrips}
use challenge_senior.Kit.Store.{Store, append, record_of}
use challenge_senior.Kit.Store.Replay.{Call, append_calls}
use challenge_senior.Events.{
  Event, name, payment_created, payment_initialized, payment_pending, payment_rejected,
  payment_succeeded, payment_failed, wallet_credited, wallet_debited, wallet_refunded,
}
use challenge_senior.ReadModels.{Projector, apply, apply_record, replay_records, replay}

-- The events one after the other.
unfoldable pub apply_all : List Event → Projector → Projector
apply_all [] p = p
apply_all (e ∷ es) p = apply_all es (apply e p)

module _ (c : Codec) (trips : RoundTrips c) where
  -- A record that `Append` makes of an event decodes to that event.
  apply_record-record_of :
      (aggregate : String) (evt : Event) (now : ℕ) (b : c.Payload) (p : Projector)
      → c.marshal evt ≡ inr b
      → apply_record c (record_of c aggregate evt now b) p ≡ (ok tt, apply evt p)
  unfolding apply_record apply name
  apply_record-record_of aggregate (payment_created e) now b p h = rw (trips.created e h)
  apply_record-record_of aggregate (payment_initialized e) now b p h = rw (trips.initialized e h)
  apply_record-record_of aggregate (payment_pending e) now b p h = rw (trips.pending e h)
  apply_record-record_of aggregate (payment_rejected e) now b p h = rw (trips.rejected e h)
  apply_record-record_of aggregate (payment_succeeded e) now b p h = rw (trips.succeeded e h)
  apply_record-record_of aggregate (payment_failed e) now b p h = rw (trips.failed e h)
  apply_record-record_of aggregate (wallet_credited e) now b p h = rw (trips.credited e h)
  apply_record-record_of aggregate (wallet_debited e) now b p h = rw (trips.debited e h)
  apply_record-record_of aggregate (wallet_refunded e) now b p h = rw (trips.refunded e h)
  apply_record-record_of aggregate _ now b p h = refl

  replay_records-snoc :
      (rs : List (Record c.Payload)) (r : Record c.Payload) (p : Projector)
      → replay_records c (rs ++ r ∷ []) p
        ≡ continue (replay_records c rs p).0 (replay_records c rs p).1 (λ _. apply_record c r)
  unfolding replay_records
  replay_records-snoc [] r p = ends (apply_record c r p)
    where
      ends : (o : Result (Unit {0}) × Projector) → continue o.0 o.1 (λ _ q. (ok tt, q)) ≡ o
      ends (ok _, q) = refl
      ends (err e, q) = refl
      ends (panic, q) = refl
  replay_records-snoc (x ∷ rs) r p = next (apply_record c x p) (λ q. replay_records-snoc rs r q)
    where
      next :
          (o : Result (Unit {0}) × Projector)
          → ((q : Projector)
              → replay_records c (rs ++ r ∷ []) q
                ≡ continue
                    (replay_records c rs q).0
                    (replay_records c rs q).1
                    (λ _. apply_record c r))
          → continue o.0 o.1 (λ _. replay_records c (rs ++ r ∷ [])) ≡ (
              let (d, q) = continue o.0 o.1 (λ _. replay_records c rs) in
              continue d q (λ _. apply_record c r))
      next (ok _, q) ih = ih q
      next (err e, q) ih = refl
      next (panic, q) ih = refl

abbrev pub events_of : List Call → List Event
events_of [] = []
events_of ((written, now, aggregate, evt) ∷ calls) = evt ∷ events_of calls

module _ (c : Codec) (trips : RoundTrips c)
    (encodes : (e : Event) → (b : c.Payload) × (c.marshal e ≡ inr b)) where
  -- If the store replays to the views `q`, it replays after one more event to those with the event
  -- applied.
  replay-append :
      (written : Bool) (now : ℕ) (aggregate : String) (evt : Event) (s : Store c.Payload c.Line)
      (p q : Projector)
      → replay c s p ≡ (ok tt, q)
      → replay c (append c written now aggregate evt s).1 p ≡ (ok tt, apply evt q)
  unfolding replay append
  replay-append written now aggregate evt s p q h =
      let (b, e) = encodes evt in
      rw (append, e, replay_records-snoc c trips s.log (record_of c aggregate evt now b) p, h)
        (apply_record-record_of c trips aggregate evt now b q e)

  -- Where JSON encodes every event and decodes what it encoded: if a store, with a file or
  -- without, replays to some views with no error, then after further events have been appended,
  -- whether or not the write of each to the file succeeds, it replays to those views with the
  -- events applied in their order.
  pub replay-append_calls :
      (calls : List Call) (s : Store c.Payload c.Line) (p q : Projector)
      → replay c s p ≡ (ok tt, q)
      → replay c (append_calls c calls s) p ≡ (ok tt, apply_all (events_of calls) q)
  unfolding append_calls apply_all
  replay-append_calls [] s p q h = h
  replay-append_calls ((written, now, aggregate, evt) ∷ calls) s p q h =
      replay-append_calls calls (append c written now aggregate evt s).1 p (apply evt q)
        (replay-append written now aggregate evt s p q h)
