-- ===== src/System/Wiring.antt =====
-- The subscriptions of cmd/web/main.go on the bus of kit/broker/bus.go.
use mathlib.Core.List.{append_assoc, append-nil}
use challenge_senior.Prelude.{
  ℕ, ◌+◌, ◌≤◌, String, Bool, false, ◌≡◌, refl, sym, ap, ◌∙◌, inl, inr, some, List, [], ◌∷◌, ◌++◌,
  map, if◌then◌else◌, ◌==◌, length, Bool-cases, eq_iff,
}
use challenge_senior.Prelude.GoMap.{index, index-insert}
use challenge_senior.Kit.Context.{Context}
use challenge_senior.Kit.Bus.{Bus, Handler, subscribe, new_bus, new_with_config, publish, shard_of}
use challenge_senior.Kit.Bus.Publishing.{IsQueued, publish-queues}
use challenge_senior.Kit.Bus.Publishing as Publishing
use challenge_senior.Events.{Event, name}
use challenge_senior.System.{
  Subscriber, Delivery, subscriptions, subscribed, deliveries, subscribe_all, wired_bus,
}

module _ {W : Type 0} (f : Subscriber → Handler W) where
  subscribed_one :
      (n m : String) (h : Subscriber) (hs : List (String × Subscriber)) (l : List (Handler W))
      → (if m == n then l ++ f h ∷ [] else l) ++ map f (subscribed n hs)
        ≡ l ++ map f (subscribed n ((m, h) ∷ hs))
  subscribed_one n m h hs l = elim (Bool-cases (m == n)) [
    | inl same ↦ rw same (append_assoc l (f h ∷ []) (map f (subscribed n hs)))
    | inr other ↦ rw other
  ]

  at_name :
      (n m : String) (h : Subscriber) (b : Bus W)
      → index [] n (subscribe m (f h) b).handlers
        ≡ (if m == n then index [] n b.handlers ++ f h ∷ [] else index [] n b.handlers)
  unfolding subscribe
  at_name n m h b =
      index-insert [] m n (index [] m b.handlers ++ f h ∷ []) b.handlers
      ∙ elim (Bool-cases (m == n)) [
        | inl same ↦ rw (same, (eq_iff m n).0 same)
        | inr other ↦ rw other
      ]

  -- The handlers of a name, after the subscriptions of a list.
  pub subscribed-subscribe_all :
      (n : String) (hs : List (String × Subscriber)) (b : Bus W)
      → index [] n (subscribe_all f hs b).handlers
        ≡ index [] n b.handlers ++ map f (subscribed n hs)
  unfolding subscribe_all
  subscribed-subscribe_all n [] b = sym (append-nil _)
  subscribed-subscribe_all n ((m, h) ∷ hs) b =
      subscribed-subscribe_all n hs (subscribe m (f h) b)
      ∙ ap (λ l. l ++ map f (subscribed n hs)) (at_name n m h b)
      ∙ subscribed_one n m h hs (index [] n b.handlers)

  map_deliveries :
      (evt : Event) (hs : List Subscriber)
      → map
          (λ d. f d.subscriber)
          (map {A = Subscriber} {B = Delivery} (λ h. record { subscriber = h; evt = evt }) hs)
        ≡ map f hs
  map_deliveries evt [] = refl
  map_deliveries evt (h ∷ hs) = ap (λ l. f h ∷ l) (map_deliveries evt hs)

  wired_handlers :
      (procs : ℕ) (evt : Event)
      → index [] (name evt) (wired_bus f procs).handlers
        ≡ map (λ d. f d.subscriber) (deliveries evt)
  unfolding wired_bus deliveries new_bus new_with_config index
  wired_handlers procs evt =
      subscribed-subscribe_all (name evt) subscriptions (new_bus procs)
      ∙ sym (map_deliveries evt (subscribed (name evt) subscriptions))

  -- On a bus with the subscriptions that `main` makes, while it is open and the queue of the
  -- event's shard has room, `Publish` reports no error and queues exactly the deliveries that
  -- the model of the whole program makes of the event, in their order, and no other queue
  -- changes.
  pub publish-deliveries :
      (procs : ℕ) (sum32 : String → ℕ) (gives_up : ℕ → Bool) (ctx : Context) (evt : Event)
      (b : Bus W)
      → b.handlers ≡ (wired_bus f procs).handlers
      → b.done ≡ false
      → length (b.shards (shard_of sum32 b evt))
          + length (map (λ d. f d.subscriber) (deliveries evt))
        ≤ b.cfg.buffer_per_shard
      → (b' : Bus W) × (publish sum32 gives_up ctx evt b ≡ some ([], b'))
        × IsQueued sum32 gives_up ctx evt
            (shard_of sum32 b evt)
            (Publishing.deliveries ctx evt 0 (map (λ d. f d.subscriber) (deliveries evt)))
            b
            b'
  publish-deliveries procs sum32 gives_up ctx evt b same opened room =
      let here : index [] (name evt) b.handlers ≡ map (λ d. f d.subscriber) (deliveries evt) =
        ap (index [] (name evt)) same ∙ wired_handlers procs evt in
      rw here at (publish-queues sum32 gives_up ctx evt b opened (rw here room))
