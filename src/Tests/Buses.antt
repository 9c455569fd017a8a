-- ===== src/Tests/Buses.antt =====
-- The bus's theorems on one with two handlers of one event.
use challenge_senior.Prelude.{
  ℕ, zero, suc, ◌<◌, ◌≤◌, String, Bool, false, ◌≡◌, refl, inl, none, some, [], ◌∷◌, length, arith,
}
use challenge_senior.Kit.Errors.{sentinel, canceled, timeout}
use challenge_senior.Kit.Action.{ok, err}
use challenge_senior.Kit.Context.{background}
use challenge_senior.Prelude.GoMap.{index}
use challenge_senior.Events.{Event, name, payment_pending}
use challenge_senior.Kit.Bus.{
  Bus, BusConfig, Delivery, Handler, Processed, checked_config, new_with_config, shard_of, send_one,
  publish, process_delivery, safe_handle, queue_at,
}
use challenge_senior.Kit.Bus.Retries.{
  called, process_delivery-ends, process_delivery-succeeds, process_delivery-never_ends,
}
use challenge_senior.Kit.Bus.Queues.{
  Traffic, done, next, sends, quiet, add_at, IsInOrder, Steps-IsInOrder,
}
use challenge_senior.Kit.Bus.Publishing.{deliveries, IsQueued, publish-queues}

-- A handler that fails while the world's number is not 0, and takes one from it.
abbrev counts_down : Handler ℕ
counts_down ctx evt zero = (ok tt, zero)
counts_down ctx evt (suc n) = (err (sentinel timeout), n)

abbrev refuses_all : Handler ℕ
refuses_all ctx evt n = (err (sentinel canceled), n)

abbrev waits : Event
waits = payment_pending (record { payment_id = "p1"; user_id = "ann"; at = 1 })

abbrev of : Handler ℕ → Delivery ℕ
of h = record { ctx = background; evt = waits; handler = h; handler_index = 0 }

-- Two shards of four places, and at most three attempts.
abbrev three : BusConfig
three = record {
  shard_count = 2;
  buffer_per_shard = 4;
  retry_backoff = 25;
  retry_backoff_max = 60;
  max_attempts = 3;
}

abbrev no_limit : BusConfig
no_limit = record three { max_attempts = 0 }

abbrev stays_open : ℕ → Bool
stays_open n = false

process_delivery-ends_example :
    (p : Processed ℕ) × (process_delivery three stays_open (of refuses_all) 3 9 ≡ some p)
    × (p.calls ≤ 3)
    × (0 < p.calls)
process_delivery-ends_example =
    process_delivery-ends three stays_open (of refuses_all) 9 (omega arith)

process_delivery-succeeds_example :
    (p : Processed ℕ) × (process_delivery no_limit stays_open (of counts_down) 3 2 ≡ some p)
    × (p.calls ≡ 3)
    × (length p.waits ≡ 2)
    × (p.world ≡ called (of counts_down) 3 2)
unfolding safe_handle called
process_delivery-succeeds_example =
    process_delivery-succeeds no_limit stays_open (of counts_down) 2 2 (λ m. refl) (inl refl)
      ((sentinel timeout, refl), ((sentinel timeout, refl), tt)) refl

process_delivery-never_ends_example :
    process_delivery no_limit stays_open (of refuses_all) 1_000 7 ≡ none
unfolding safe_handle
process_delivery-never_ends_example =
    process_delivery-never_ends no_limit stays_open (of refuses_all) 1_000 7 refl (λ m. refl)
      (λ v. (sentinel canceled, refl))

abbrev sum : String → ℕ
sum s = 5

-- A bus on which both handlers have been subscribed.
abbrev busy : Bus ℕ
busy = record {
  handlers = ("payment.pending", counts_down ∷ refuses_all ∷ []) ∷ [];
  shards = λ i. [];
  done = false;
  cfg = three;
}

publish-queues_example :
    (b : Bus ℕ) × (publish sum stays_open background waits busy ≡ some ([], b))
    × IsQueued sum stays_open background waits
        (shard_of sum busy waits)
        (deliveries background waits 0 (index [] (name waits) busy.handlers))
        busy
        b
unfolding index name
publish-queues_example = publish-queues sum stays_open background waits busy refl (omega arith)

abbrev fresh : Traffic ℕ
fresh = quiet three

Steps-IsInOrder_example : IsInOrder sum (checked_config three).shard_count (record fresh {
  bus = queue_at sum (shard_of sum fresh.bus waits) (of counts_down) fresh.bus;
  sent = add_at (shard_of sum fresh.bus waits) (of counts_down) fresh.sent;
})
unfolding send_one new_with_config checked_config
Steps-IsInOrder_example = Steps-IsInOrder sum three (next done (sends false (of counts_down) refl))
