-- ===== src/System/Money/Waiting.antt =====
-- How many of the deliveries that may wait (the subscriptions of cmd/web/main.go) move a payment on.
use challenge_senior.Prelude.{
  ℕ, ◌+◌, ◌≤◌, String, false, ◌≡◌, refl, ap, sym, ◌∙◌, inl, inr, none, some, List, [], ◌∷◌, ◌++◌,
  if◌then◌else◌, ◌==◌, arith, Bool-cases, eq_iff,
}
use challenge_senior.Payment.{Payment}
use challenge_senior.Payment.Laws.{saved}
use challenge_senior.Web.Payment.{CreatePaymentReq}
use challenge_senior.Events.{Event, partition_key}
use challenge_senior.System.{Subscriber, Delivery}
use challenge_senior.System.Money.{
  PaymentsById, IsDue, AllDue, IsIdle, logs_debit, logs_refund, audits, shows, counts,
  notes_completed, notes_failed, idle, starting, debiting, rejecting, taken, charging, charged,
  uncharged, recovering, refunding,
}
use challenge_senior.System.Money.Turns.{moves_on, turn, turns, over, turns-append}
use challenge_senior.System.Money.Requests.{asked}

idle_waits : {h : Subscriber} → IsIdle h → moves_on h ≡ false
idle_waits logs_debit = refl
idle_waits logs_refund = refl
idle_waits audits = refl
idle_waits shows = refl
idle_waits counts = refl
idle_waits notes_completed = refl
idle_waits notes_failed = refl

-- Nothing that may wait moves on a payment that is not stored.
module _ (st : PaymentsById) (i : String) (missing : st i ≡ none) where
  other_key :
      (k : String) {p : Payment} → st k ≡ some p → let n : ℕ = if k == i then 1 else 0 in n ≡ 0
  other_key k f = elim (Bool-cases (k == i)) [
    | inl here ↦ absurd (cc (sym missing ∙ ap st (sym ((eq_iff k i).0 here)) ∙ f))
    | inr other ↦ rw other refl
  ]

  due_turn :
      {h : Subscriber} {evt : Event}
      → IsDue st h evt
      → turn i (record { subscriber = h; evt = evt }) ≡ 0
  unfolding partition_key
  due_turn (idle evt x) = rw (idle_waits x) refl
  due_turn (starting e f _ _) = other_key e.payment_id f
  due_turn (debiting e f _ _) = other_key e.payment_id f
  due_turn (rejecting e f) = other_key e.payment_id f
  due_turn (taken e f) = other_key e.payment_id f
  due_turn (charging e f) = other_key e.payment_id f
  due_turn (charged e f) = other_key e.payment_id f
  due_turn (uncharged e f) = other_key e.payment_id f
  due_turn (recovering e f _) = other_key e.payment_id f
  due_turn (refunding e f _ _) = refl

  pub due_turns : (ds : List Delivery) → AllDue st ds → turns i ds ≡ 0
  due_turns [] h = refl
  due_turns (d ∷ ds) (x, xs) = omega (arith, due_turn x, due_turns ds xs)

pub rest_turns :
    (i : String) (before : List Delivery) (d : Delivery) (after : List Delivery)
    → turns i (before ++ d ∷ after) ≡ turns i (before ++ after) + turn i d
rest_turns i before d after =
    omega (arith, turns-append i before (d ∷ after), turns-append i before after)

-- A payment that is asked for under an id that no payment has.
pub fresh_turns :
    (st : PaymentsById) (ds : List Delivery) (req : CreatePaymentReq) (i : String)
    → st req.payment_id ≡ none
    → AllDue st ds
    → turns i ds + over (st i) ≤ 1
    → (n o : ℕ) → n ≡ turns i ds + (if req.payment_id == i then 1 else 0)
    → o ≡ over (saved st (asked req) i)
    → n + o ≤ 1
fresh_turns st ds req i fresh due before n o waits stands =
    elim (Bool-cases (req.payment_id == i)) [
      | inl here ↦
          let missing : st i ≡ none = ap st (sym ((eq_iff req.payment_id i).0 here)) ∙ fresh in
          omega (arith, rw here at waits, rw here at stands, due_turns st i missing ds due)
      | inr other ↦ omega (arith, rw other at waits, rw other at stands, before)
    ]

pub fresh_last :
    (st : PaymentsById) (req : CreatePaymentReq) (i : String)
    → st req.payment_id ≡ none
    → over (st i) ≡ 1
    → saved st (asked req) i ≡ st i
fresh_last st req i fresh ended = elim (Bool-cases (req.payment_id == i)) [
  | inl here ↦
      let missing : st i ≡ none = ap st (sym ((eq_iff req.payment_id i).0 here)) ∙ fresh in
      absurd (omega (arith, ended, ap over missing))
  | inr other ↦ rw other refl
]
