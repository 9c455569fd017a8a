-- ===== src/Kit/Bus.antt =====
-- kit/broker/bus.go: handlers by event name, a queue for each shard, and the retries of a delivery.
-- A handler acts on the world `W`. The hash of hash/fnv is a parameter. A select that may take either
-- of two cases takes the one that an argument names.
pub mod Retries
pub mod Queues
pub mod Publishing
use challenge_senior.Prelude.{
  ℕ, zero, suc, ◌*◌, ◌%◌, ◌^◌, String, Bool, true, false, ◌&&◌, Option, none, some, List, [], ◌∷◌,
  ◌++◌, if◌then◌else◌, eqb, ltb, leb, ◌==◌, length,
}
use challenge_senior.Prelude.GoMap.{GoMap, index, insert}
use challenge_senior.Kit.Errors.{Error, sentinel, canceled}
use challenge_senior.Kit.Action.{Result, ok, err, panic, Action}
use challenge_senior.Kit.Context.{Context, millisecond}
use challenge_senior.Events.{Event, name, partition_key}

pub record BusConfig : Type 0 where
  pub shard_count : ℕ
  pub buffer_per_shard : ℕ
  pub retry_backoff : ℕ
  pub retry_backoff_max : ℕ
  pub max_attempts : ℕ

abbrev pub Handler : Type 0 → Type 0
Handler W = Context → Event → Action W (Unit {0})

pub record Delivery (W : Type 0) : Type 0 where
  pub ctx : Context
  pub evt : Event
  pub handler : Handler W
  pub handler_index : ℕ

-- `shards i` is what waits in the channel of shard `i`; `done` says that the bus has been closed.
pub record Bus (W : Type 0) : Type 0 where
  pub handlers : GoMap (List (Handler W))
  pub shards : ℕ → List (Delivery W)
  pub done : Bool
  pub cfg : BusConfig

abbrev pub at_least_one : ℕ → ℕ
at_least_one n = if ltb n 1 then 1 else n

abbrev pub or_default : ℕ → ℕ → ℕ
or_default d n = if leb n 0 then d else n

-- The four tests of `NewWithConfig`.
unfoldable pub checked_config : BusConfig → BusConfig
checked_config cfg = record cfg {
  shard_count = at_least_one cfg.shard_count;
  buffer_per_shard = at_least_one cfg.buffer_per_shard;
  retry_backoff = or_default (25 * millisecond) cfg.retry_backoff;
  retry_backoff_max = or_default (2_000 * millisecond) cfg.retry_backoff_max;
}

unfoldable pub new_with_config : {W : Type 0} → BusConfig → Bus W
unfolding checked_config
new_with_config cfg = record {
  handlers = [];
  shards = λ i. [];
  done = false;
  cfg = checked_config cfg;
}

-- `New`, where `procs` is runtime.GOMAXPROCS(0)
unfoldable pub new_bus : {W : Type 0} → ℕ → Bus W
unfolding new_with_config
new_bus procs = new_with_config (record {
  shard_count = at_least_one procs;
  buffer_per_shard = 256;
  retry_backoff = 25 * millisecond;
  retry_backoff_max = 2_000 * millisecond;
  max_attempts = 0;
})

unfoldable pub subscribe : {W : Type 0} → String → Handler W → Bus W → Bus W
subscribe event_name h b = record b {
  handlers = insert event_name (index [] event_name b.handlers ++ h ∷ []) b.handlers;
}

-- `Close` up to its wait for the workers.
unfoldable pub close_bus : {W : Type 0} → Bus W → Bus W
close_bus b = record b { done = true }

-- `partitionKey`
unfoldable pub key_of : Event → String
key_of evt = if partition_key evt == "" then name evt else partition_key evt

unfoldable pub shard_for_key : (String → ℕ) → String → ℕ → ℕ
shard_for_key sum32 key shards = if leb shards 1 then 0 else (sum32 key % 2 ^ 32) % shards

-- `errs = append(errs, context.Canceled)` or nothing
abbrev pub noted : Option Error → List Error → List Error
noted none errs = errs
noted (some e) errs = e ∷ errs

module _ {W : Type 0} (sum32 : String → ℕ) where
  unfoldable pub shard_of : Bus W → Event → ℕ
  unfolding shard_for_key key_of
  shard_of b evt = shard_for_key sum32 (key_of evt) b.cfg.shard_count

  abbrev pub queue_at : ℕ → Delivery W → Bus W → Bus W
  queue_at i d b = record b { shards = λ j. if eqb i j then b.shards j ++ d ∷ [] else b.shards j }

  abbrev pub has_room : ℕ → Bus W → Bool
  has_room i b = ltb (length (b.shards i)) b.cfg.buffer_per_shard

  -- The two selects for one delivery: an error or none, or no result while the call blocks. Where
  -- both cases of the first are ready, `gives_up` says whether it takes that of the closed bus.
  unfoldable pub send_one : Bool → Delivery W → Bus W → Option (Option Error × Bus W)
  unfolding shard_of
  send_one gives_up d b =
      let i = shard_of b d.evt in
      if has_room i b
      then (if b.done && gives_up
          then some (some (sentinel canceled), b)
          else some (none, queue_at i d b))
      else if b.done
      then some (some (sentinel canceled), b)
      else none

  abbrev pub note : Option Error → Option (List Error × Bus W) → Option (List Error × Bus W)
  note e none = none
  note e (some (errs, b)) = some (noted e errs, b)

  -- The loop of `Publish` over the handlers from the `n`-th on.
  unfoldable pub send_each :
      (ℕ → Bool) → Context → Event → ℕ → List (Handler W) → Bus W → Option (List Error × Bus W)
  send_each gives_up ctx evt n [] b = some ([], b)
  send_each gives_up ctx evt n (h ∷ hs) b =
      elim (send_one (gives_up n) (record { ctx = ctx; evt = evt; handler = h; handler_index = n })
        b) [ none ↦ none | some (e, b') ↦ note e (send_each gives_up ctx evt (suc n) hs b') ]

  -- `Publish`, in a state in which it does not block.
  unfoldable pub publish : (ℕ → Bool) → Context → Event → Bus W → Option (List Error × Bus W)
  unfolding send_each
  publish gives_up ctx evt b = send_each gives_up ctx evt 0 (index [] (name evt) b.handlers) b

-- `d := <-b.shards[shard]`
unfoldable pub take : {W : Type 0} → ℕ → Bus W → Option (Delivery W × Bus W)
take i b = elim (b.shards i) [
  | [] ↦ none
  | d ∷ ds ↦ some (d, record b { shards = λ j. if eqb i j then ds else b.shards j })
]

-- `safeHandle`: a panic becomes an error.
abbrev pub recovered : Result (Unit {0}) → Option Error
recovered (ok _) = none
recovered (err e) = some e
recovered panic = some (sentinel canceled)

unfoldable pub safe_handle : {W : Type 0} → Delivery W → W → Option Error × W
safe_handle d w = let (r, w') = d.handler d.ctx d.evt w in (recovered r, w')

-- `backoff *= 2` and the test behind it
unfoldable pub next_backoff : BusConfig → ℕ → ℕ
next_backoff cfg backoff =
    if ltb cfg.retry_backoff_max (backoff * 2) then cfg.retry_backoff_max else backoff * 2

-- How a delivery ended: after how many calls, and the waits between them, the last one first.
pub record Processed (W : Type 0) : Type 0 where
  pub calls : ℕ
  pub waits : List ℕ
  pub world : W

module _ {W : Type 0} (cfg : BusConfig) (closed_after : ℕ → Bool) (d : Delivery W) where
  -- The loop of `processDelivery` on fuel; `none` means that the fuel ran out. `closed_after n` says
  -- that the bus is closed during the wait after the `n`-th call.
  unfoldable pub process : ℕ → ℕ → ℕ → List ℕ → W → Option (Processed W)
  unfolding safe_handle next_backoff
  process zero attempt backoff waits w = none
  process (suc fuel) attempt backoff waits w =
      let (failure, w') = safe_handle d w in
      let again = process fuel (suc attempt) (next_backoff cfg backoff) (backoff ∷ waits) w' in
      let stop = some (record { calls = suc attempt; waits = waits; world = w' }) in
      elim failure [
        | none ↦ stop
        | some e ↦
            if ltb 0 cfg.max_attempts && leb cfg.max_attempts (suc attempt)
            then stop
            else if closed_after (suc attempt)
            then stop
            else again
      ]

  -- `processDelivery`
  unfoldable pub process_delivery : ℕ → W → Option (Processed W)
  unfolding process
  process_delivery fuel w = process fuel 0 cfg.retry_backoff [] w
