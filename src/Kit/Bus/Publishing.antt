-- ===== src/Kit/Bus/Publishing.antt =====
-- What `Publish` of kit/broker/bus.go sends while the bus is open and its queue has room.
use challenge_senior.Prelude.{
  ℕ, suc, ◌+◌, ◌≤◌, ◌<◌, String, Bool, true, false, ◌≡◌, refl, ◌∙◌, sym, ap, none, some, List, [],
  ◌∷◌, ◌++◌, eqb, length, arith, lt→ltb,
}
use challenge_senior.Prelude.GoMap.{index}
use challenge_senior.Kit.Context.{Context}
use challenge_senior.Events.{Event, name}
use challenge_senior.Kit.Bus.{
  Bus, Delivery, Handler, shard_of, queue_at, send_one, send_each, publish,
}
use challenge_senior.Kit.Bus.Queues.{length-snoc, cons_assoc}

-- One delivery for each handler, in the order of their subscription.
abbrev pub deliveries : {W : Type 0} → Context → Event → ℕ → List (Handler W) → List (Delivery W)
deliveries ctx evt n [] = []
deliveries ctx evt n (h ∷ hs) =
    record { ctx = ctx; evt = evt; handler = h; handler_index = n } ∷ deliveries ctx evt (suc n) hs

append_nil : {A : Type 0} (xs : List A) → xs ≡ xs ++ []
append_nil [] = refl
append_nil (x ∷ xs) = ap (λ l. x ∷ l) (append_nil xs)

eqb_refl : (i : ℕ) → eqb i i ≡ true
eqb_refl i = ground arith

module _ {W : Type 0} (sum32 : String → ℕ) (gives_up : ℕ → Bool) (ctx : Context) (evt : Event) where
  send_one-room :
      (u : Bool) (d : Delivery W) (b : Bus W)
      → b.done ≡ false
      → length (b.shards (shard_of sum32 b d.evt)) < b.cfg.buffer_per_shard
      → send_one sum32 u d b ≡ some (none, queue_at sum32 (shard_of sum32 b d.evt) d b)
  unfolding send_one
  send_one-room u d b opened room =
      rw (lt→ltb (length (b.shards (shard_of sum32 b d.evt))) b.cfg.buffer_per_shard room, opened)

  -- The bus with `ds` behind the queue of shard `i`.
  abbrev pub IsQueued : ℕ → List (Delivery W) → Bus W → Bus W → Type 0
  IsQueued i ds b b' =
      (b'.shards i ≡ b.shards i ++ ds)
      × ((j : ℕ) → eqb i j ≡ false → b'.shards j ≡ b.shards j)
      × (b'.handlers ≡ b.handlers)

  queued_here :
      (i : ℕ) (d : Delivery W) (b : Bus W) → (queue_at sum32 i d b).shards i ≡ b.shards i ++ d ∷ []
  queued_here i d b = rw (eqb_refl i)

  queued_length :
      (i : ℕ) (d : Delivery W) (b : Bus W)
      → length ((queue_at sum32 i d b).shards i) ≡ suc (length (b.shards i))
  queued_length i d b = ap length (queued_here i d b) ∙ length-snoc (b.shards i) d

  queued_other :
      (i j : ℕ) (d : Delivery W) (b : Bus W)
      → eqb i j ≡ false
      → (queue_at sum32 i d b).shards j ≡ b.shards j
  queued_other i j d b ne = rw ne

  same_shard :
      (i j : ℕ) (d : Delivery W) (b : Bus W)
      → shard_of sum32 b evt ≡ i
      → shard_of sum32 (queue_at sum32 j d b) evt ≡ i
  unfolding shard_of
  same_shard i j d b e = e

  send_each-queues :
      (n i : ℕ) (hs : List (Handler W)) (b : Bus W)
      → shard_of sum32 b evt ≡ i
      → b.done ≡ false
      → length (b.shards i) + length hs ≤ b.cfg.buffer_per_shard
      → (b' : Bus W) × (send_each sum32 gives_up ctx evt n hs b ≡ some ([], b'))
        × IsQueued i (deliveries ctx evt n hs) b b'
  unfolding send_each
  send_each-queues n i [] b at_i opened room =
      (b, refl, (append_nil (b.shards i), λ j ne. refl, refl))
  send_each-queues n i (h ∷ hs) b at_i opened room =
      let d : Delivery W = record { ctx = ctx; evt = evt; handler = h; handler_index = n } in
      let longer = queued_length i d b in
      let (b', eq, queued) =
        send_each-queues (suc n) i hs (queue_at sum32 i d b) (same_shard i i d b at_i) opened
          (omega (arith, longer, room)) in
      (
        b',
        rw (send_each, send_one-room (gives_up n) d b opened (rw at_i (omega arith)), at_i, eq),
        (
          queued.0
              ∙ ap (λ l. l ++ deliveries ctx evt (suc n) hs) (queued_here i d b)
              ∙ sym (cons_assoc (b.shards i) d (deliveries ctx evt (suc n) hs)),
          λ j ne. queued.1 j ne ∙ queued_other i j d b ne,
          queued.2,
        ),
      )

  -- While the bus is open and the queue of the event's shard has room for them all, `Publish`
  -- reports no error and queues one delivery for each handler of the event's name, in the order
  -- of their subscription, behind what waits there; no other queue changes.
  pub publish-queues :
      (b : Bus W)
      → b.done ≡ false
      → length (b.shards (shard_of sum32 b evt)) + length (index [] (name evt) b.handlers)
        ≤ b.cfg.buffer_per_shard
      → (b' : Bus W) × (publish sum32 gives_up ctx evt b ≡ some ([], b'))
        × IsQueued
            (shard_of sum32 b evt)
            (deliveries ctx evt 0 (index [] (name evt) b.handlers))
            b
            b'
  unfolding publish
  publish-queues b opened room =
      send_each-queues 0 (shard_of sum32 b evt) (index [] (name evt) b.handlers) b refl opened room
