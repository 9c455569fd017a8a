-- ===== src/Kit/Bus/Queues.antt =====
-- The shards of the bus (kit/broker/bus.go) as queues: where an event goes, and in which order the
-- worker of a shard takes what was sent to it.
use challenge_senior.Prelude.{
  ℕ, suc, ◌≤◌, ◌<◌, String, Bool, ◌≡◌, refl, ◌∙◌, ap, ◌⊎◌, inl, inr, none, some, List, [], ◌∷◌,
  ◌++◌, if◌then◌else◌, eqb, length, Bool-cases, arith,
}
use challenge_senior.Kit.Errors.{Error}
use challenge_senior.Events.{Event}
use challenge_senior.Kit.Bus.{
  Bus, BusConfig, Delivery, Handler, new_with_config, checked_config, subscribe, close_bus, key_of,
  shard_for_key, shard_of, queue_at, send_one, take,
}

-- The bus, and what has been sent to each shard and taken from it, the first one first.
pub record Traffic (W : Type 0) : Type 0 where
  pub bus : Bus W
  pub sent : ℕ → List (Delivery W)
  pub taken : ℕ → List (Delivery W)

abbrev pub add_at : {W : Type 0} → ℕ → Delivery W → (ℕ → List (Delivery W)) → ℕ → List (Delivery W)
add_at i d f j = if eqb i j then f j ++ d ∷ [] else f j

-- The steps of publishers and workers, in any interleaving. A worker takes one delivery and then
-- processes it, which touches no queue.
pub data Step {W : Type 0} (sum32 : String → ℕ) (t : Traffic W) : Traffic W → Type 0 where
  subscribes :
      (event_name : String) (h : Handler W)
      → Step sum32 t (record t { bus = subscribe event_name h t.bus })
  closes : Step sum32 t (record t { bus = close_bus t.bus })
  sends :
      (gives_up : Bool) (d : Delivery W) {b : Bus W}
      → send_one sum32 gives_up d t.bus ≡ some (none, b)
      → Step sum32 t (record t { bus = b; sent = add_at (shard_of sum32 t.bus d.evt) d t.sent })
  refuses :
      (gives_up : Bool) (d : Delivery W) {e : Error} {b : Bus W}
      → send_one sum32 gives_up d t.bus ≡ some (some e, b)
      → Step sum32 t (record t { bus = b })
  takes :
      (i : ℕ) {d : Delivery W} {b : Bus W}
      → take i t.bus ≡ some (d, b)
      → Step sum32 t (record t { bus = b; taken = add_at i d t.taken })

pub data Steps {W : Type 0} (sum32 : String → ℕ) (t : Traffic W) : Traffic W → Type 0 where
  done : Steps sum32 t t
  next : {u v : Traffic W} → Steps sum32 t u → Step sum32 u v → Steps sum32 t v

abbrev pub quiet : {W : Type 0} → BusConfig → Traffic W
quiet cfg = record { bus = new_with_config cfg; sent = λ i. []; taken = λ i. [] }

-- Every delivery of a list goes to shard `i`.
abbrev pub AllAt : {W : Type 0} → (String → ℕ) → ℕ → ℕ → List (Delivery W) → Type 0
AllAt sum32 n i [] = Unit {0}
AllAt sum32 n i (d ∷ ds) = (shard_for_key sum32 (key_of d.evt) n ≡ i) × AllAt sum32 n i ds

pub record IsInOrder {W : Type 0} (sum32 : String → ℕ) (n : ℕ) (t : Traffic W) : Type 0 where
  pub in_order : (i : ℕ) → t.sent i ≡ t.taken i ++ t.bus.shards i
  pub in_place : (i : ℕ) → AllAt sum32 n i (t.sent i)
  pub bounded : (i : ℕ) → length (t.bus.shards i) ≤ t.bus.cfg.buffer_per_shard
  pub same_count : t.bus.cfg.shard_count ≡ n

List-cases : {A : Type 0} (xs : List A) → (xs ≡ []) ⊎ ((x : A) × (ys : List A) × (xs ≡ x ∷ ys))
List-cases [] = inl refl
List-cases (x ∷ xs) = inr (x, xs, refl)

snoc_assoc : {A : Type 0} (xs ys : List A) (y : A) → (xs ++ ys) ++ y ∷ [] ≡ xs ++ (ys ++ y ∷ [])
snoc_assoc [] ys y = refl
snoc_assoc (x ∷ xs) ys y = ap (λ l. x ∷ l) (snoc_assoc xs ys y)

pub cons_assoc :
    {A : Type 0} (xs : List A) (y : A) (ys : List A) → xs ++ y ∷ ys ≡ (xs ++ y ∷ []) ++ ys
cons_assoc [] y ys = refl
cons_assoc (x ∷ xs) y ys = ap (λ l. x ∷ l) (cons_assoc xs y ys)

pub length-snoc : {A : Type 0} (xs : List A) (y : A) → length (xs ++ y ∷ []) ≡ suc (length xs)
length-snoc [] y = refl
length-snoc (x ∷ xs) y = ap suc (length-snoc xs y)

AllAt-snoc :
    {W : Type 0} (sum32 : String → ℕ) (n i : ℕ) (ds : List (Delivery W)) (d : Delivery W)
    → AllAt sum32 n i ds
    → shard_for_key sum32 (key_of d.evt) n ≡ i
    → AllAt sum32 n i (ds ++ d ∷ [])
AllAt-snoc sum32 n i [] d h k = (k, tt)
AllAt-snoc sum32 n i (x ∷ ds) d h k = (h.0, AllAt-snoc sum32 n i ds d h.1 k)

-- The shard of an event is one of those that the bus made.
pub shard_of-lt :
    (W : Type 0) (sum32 : String → ℕ) (evt : Event) (cfg : BusConfig)
    → shard_of sum32 (new_with_config {W = W} cfg) evt
      < (new_with_config {W = W} cfg).cfg.shard_count
unfolding shard_of shard_for_key new_with_config checked_config
shard_of-lt W sum32 evt cfg = ground arith

module _ {W : Type 0} (sum32 : String → ℕ) where
  -- What a send that does not fail does.
  send_one-queues :
      (gives_up : Bool) (d : Delivery W) (b b' : Bus W)
      → send_one sum32 gives_up d b ≡ some (none, b')
      → (length (b.shards (shard_of sum32 b d.evt)) < b.cfg.buffer_per_shard)
        × (b' ≡ queue_at sum32 (shard_of sum32 b d.evt) d b)
  unfolding send_one
  send_one-queues gives_up d b b' h = ground arith

  send_one-refuses :
      (gives_up : Bool) (d : Delivery W) (b b' : Bus W) {e : Error}
      → send_one sum32 gives_up d b ≡ some (some e, b')
      → b' ≡ b
  unfolding send_one
  send_one-refuses gives_up d b b' h = ground arith

  take-first :
      (i : ℕ) (b b' : Bus W) {d : Delivery W}
      → take i b ≡ some (d, b')
      → (ds : List (Delivery W)) × (b.shards i ≡ d ∷ ds)
        × (b' ≡ record b { shards = λ j. if eqb i j then ds else b.shards j })
  unfolding take
  take-first i b b' {d} h = elim (List-cases (b.shards i)) [
    | inl nothing ↦ absurd (ground (arith, rw (nothing, take) at h))
    | inr (d', ds, waiting) ↦ (
      ds,
      ground (arith, waiting, rw (waiting, take) at h),
      ground (arith, rw (waiting, take) at h),
    )
  ]

  in_order_sent :
      (i j : ℕ) (d : Delivery W) (t : Traffic W)
      → t.sent j ≡ t.taken j ++ t.bus.shards j
      → add_at i d t.sent j ≡ t.taken j ++ (queue_at sum32 i d t.bus).shards j
  in_order_sent i j d t h = elim (Bool-cases (eqb i j)) [
    | inl same ↦ rw (same, h) (snoc_assoc (t.taken j) (t.bus.shards j) d)
    | inr other ↦ rw other h
  ]

  in_order_taken :
      (i j : ℕ) (d : Delivery W) (ds : List (Delivery W)) (t : Traffic W)
      → t.bus.shards i ≡ d ∷ ds
      → t.sent j ≡ t.taken j ++ t.bus.shards j
      → t.sent j ≡ add_at i d t.taken j ++ (if eqb i j then ds else t.bus.shards j)
  in_order_taken i j d ds t first h = elim (Bool-cases (eqb i j)) [
    | inl same ↦
        let here : i ≡ j = ground arith in
        rw same (h ∙ rw (← here, first) (cons_assoc (t.taken i) d ds))
    | inr other ↦ rw other h
  ]

  in_place_sent :
      (n i j : ℕ) (d : Delivery W) (t : Traffic W)
      → AllAt sum32 n j (t.sent j)
      → shard_for_key sum32 (key_of d.evt) n ≡ i
      → AllAt sum32 n j (add_at i d t.sent j)
  in_place_sent n i j d t h k = elim (Bool-cases (eqb i j)) [
    | inl same ↦
        let here : i ≡ j = ground arith in rw same (AllAt-snoc sum32 n j (t.sent j) d h (k ∙ here))
    | inr other ↦ rw other h
  ]

  bounded_sent :
      (i j m : ℕ) (d : Delivery W) (b : Bus W)
      → length (b.shards i) < m
      → length (b.shards j) ≤ m
      → length (if eqb i j then b.shards j ++ d ∷ [] else b.shards j) ≤ m
  bounded_sent i j m d b room h = elim (Bool-cases (eqb i j)) [
    | inl same ↦ let here : i ≡ j = ground arith in rw (same, length-snoc) (rw (← here) room)
    | inr other ↦ rw other h
  ]

  bounded_taken :
      (i j m : ℕ) (d : Delivery W) (ds : List (Delivery W)) (b : Bus W)
      → b.shards i ≡ d ∷ ds
      → length (b.shards j) ≤ m
      → length (if eqb i j then ds else b.shards j) ≤ m
  bounded_taken i j m d ds b first h = elim (Bool-cases (eqb i j)) [
    | inl same ↦
        let here : i ≡ j = ground arith in
        let there : suc (length ds) ≤ m = rw (← here, first) at h in rw same (omega (arith, there))
    | inr other ↦ rw other h
  ]

  Step-IsInOrder :
      (n : ℕ) {t u : Traffic W} → IsInOrder sum32 n t → Step sum32 t u → IsInOrder sum32 n u
  unfolding subscribe close_bus
  Step-IsInOrder n h (subscribes event_name f) = record {
    in_order = h.in_order;
    in_place = h.in_place;
    bounded = h.bounded;
    same_count = h.same_count;
  }
  Step-IsInOrder n h closes = record {
    in_order = h.in_order;
    in_place = h.in_place;
    bounded = h.bounded;
    same_count = h.same_count;
  }
  Step-IsInOrder n {t} h (sends gives_up d {b} e) =
      let (room, same) = send_one-queues gives_up d t.bus b e in
      let i = shard_of sum32 t.bus d.evt in
      record {
        in_order = λ j. rw same (in_order_sent i j d t (h.in_order j));
        in_place = λ j. in_place_sent n i j d t (h.in_place j) (unfold shard_of in rw h.same_count);
        bounded =
            λ j. rw same (bounded_sent i j t.bus.cfg.buffer_per_shard d t.bus room (h.bounded j));
        same_count = rw same h.same_count;
      }
  Step-IsInOrder n {t} h (refuses gives_up d {e} {b} eq) =
      let same = send_one-refuses gives_up d t.bus b eq in
      record {
        in_order = λ j. rw same (h.in_order j);
        in_place = h.in_place;
        bounded = λ j. rw same (h.bounded j);
        same_count = rw same h.same_count;
      }
  Step-IsInOrder n {t} h (takes i {d} {b} e) =
      let (ds, first, same) = take-first i t.bus b e in
      record {
        in_order = λ j. rw same (in_order_taken i j d ds t first (h.in_order j));
        in_place = h.in_place;
        bounded = λ j.
            rw same (bounded_taken i j t.bus.cfg.buffer_per_shard d ds t.bus first (h.bounded j));
        same_count = rw same h.same_count;
      }

-- Whatever publishers and workers do, in any interleaving, from a new bus on: what has been
-- taken from a shard followed by what waits there is what was sent to it, in order; every
-- delivery stands in the shard of its event's key, so those of one key are taken in the order
-- in which they were sent; and no shard holds more than its buffer.
pub Steps-IsInOrder :
    {W : Type 0} (sum32 : String → ℕ) (cfg : BusConfig) {t : Traffic W}
    → Steps sum32 (quiet cfg) t
    → IsInOrder sum32 (checked_config cfg).shard_count t
unfolding new_with_config checked_config
Steps-IsInOrder sum32 cfg done = record {
  in_order = λ i. refl;
  in_place = λ i. tt;
  bounded = λ i. omega arith;
  same_count = refl;
}
Steps-IsInOrder sum32 cfg (next ss s) =
    Step-IsInOrder sum32 (checked_config cfg).shard_count (Steps-IsInOrder sum32 cfg ss) s
