-- ===== src/System/Money/Effects.antt =====
-- What handling one delivery does to the money of every user (the subscriptions of
-- cmd/web/main.go), and what follows from it where the handler writes no balance.
use mathlib.Core.List.{append_assoc}
use challenge_senior.Prelude.{
  ℕ, ◌+◌, ◌≤◌, refl, String, Bool, true, false, ◌≡◌, ◌≢◌, ap, sym, ◌∙◌, inl, inr, Option, none,
  some, List, ◌++◌, if◌then◌else◌, ◌==◌, arith, Bool-cases, eq_iff,
}
use challenge_senior.Prelude.Int.{ℤ, pos_part, neg_part}
use challenge_senior.Kit.Action.{Result, ok}
use challenge_senior.Kit.Codec.{Codec}
use challenge_senior.Payment.{Payment}
use challenge_senior.Payment.Laws.{saved}
use challenge_senior.Payment.Marks.{SamePayment, marked-SamePayment}
use challenge_senior.Payment.Service.{
  Mark, pending, rejected, succeeded, failed, marked, mark_event,
}
use challenge_senior.Events.{partition_key}
use challenge_senior.System.{App, Delivery, Subscriber, Parts, deliveries, result_charge_succeeded}
use challenge_senior.System.Money.Turns.{turn, turns, over, ends, over-marked, turns-append}
use challenge_senior.System.Money.{
  PaymentsById, rewrites, lost_by, gained_by, amount_for, carried, in_flight, IsAlike, IsDatabase,
  AllDue, idle, audits, shows, counts, notes_completed, notes_failed, in_flight-append,
  AllDue-append, in_flight-kept, AllDue-kept, IsKept, IsAlike-IsKept,
}

-- The handler of a charge that succeeded is where the money is spent.
abbrev pub spends : Subscriber → Bool
spends result_charge_succeeded = true
spends _ = false

abbrev pub settled : PaymentsById → String → Delivery → ℕ
settled st u d = if spends d.subscriber then amount_for u (st (partition_key d.evt)) else 0

-- What handling a delivery undoes of what the users hold, where its reads have returned `seen`.
abbrev pub lost : {D : Type 0} → (D → String → ℤ) → (String → ℤ) → Delivery → D → String → ℕ
lost held seen d db u = lost_by (rewrites d.subscriber d.evt u) (held db u) (seen u)

abbrev pub gained : {D : Type 0} → (D → String → ℤ) → (String → ℤ) → Delivery → D → String → ℕ
gained held seen d db u = gained_by (rewrites d.subscriber d.evt u) (held db u) (seen u)

pub IsAlike-refl : (o : Option Payment) → IsAlike o o
IsAlike-refl none = tt
IsAlike-refl (some p) = ground arith

-- The deliveries of a transition's event are for idle handlers and carry nothing.
pub mark_deliveries :
    (st : PaymentsById) (now : ℕ) (i u j : String) (m : Mark)
    → AllDue st (deliveries (mark_event now i j m))
      × (in_flight st u (deliveries (mark_event now i j m)) ≡ 0)
unfolding deliveries
mark_deliveries st now i u j pending = ((idle _ audits, (idle _ shows, tt)), omega arith)
mark_deliveries st now i u j (rejected reason) = ((idle _ audits, (idle _ shows, tt)), omega arith)
mark_deliveries st now i u j (succeeded gateway) =
    ((idle _ audits, (idle _ shows, (idle _ counts, (idle _ notes_completed, tt)))), omega arith)
mark_deliveries st now i u j (failed reason) =
    ((idle _ audits, (idle _ shows, (idle _ counts, (idle _ notes_failed, tt)))), omega arith)

pub mark_turns :
    (now : ℕ) (i j k : String) (m : Mark) → turns k (deliveries (mark_event now i j m)) ≡ 0
unfolding deliveries
mark_turns now i j k pending = refl
mark_turns now i j k (rejected reason) = refl
mark_turns now i j k (succeeded gateway) = refl
mark_turns now i j k (failed reason) = refl

not_turn : (b : Bool) {n : ℕ} → n ≡ (if b then 1 else 0) → n ≡ 0 → b ≡ false
not_turn true e z = absurd (omega (arith, e, z))
not_turn false e z = refl

-- The payment `i` has made a transition: its turn is used up where the status is a last one.
ended_once :
    (st : PaymentsById) (i j : String) (m : Mark) (p : Payment) (n k : ℕ)
    → p.id ≡ i
    → n + (if i == j then ends m else 0) ≤ k
    → n + over (saved st (marked m p) j) ≤ k + over (st j)
ended_once st i j m p n k own sum =
    let same : (marked m p).id ≡ i = (marked-SamePayment m p).same_id ∙ own in
    elim (Bool-cases (i == j)) [
      | inl here ↦ rw (same, here, over-marked m p) (omega (arith, rw here at sum))
      | inr other ↦ rw (same, other) (omega (arith, rw other at sum))
    ]

others_stay :
    (st : PaymentsById) (i j : String) (m : Mark) (p : Payment)
    → p.id ≡ i
    → (i == j) ≡ false
    → saved st (marked m p) j ≡ st j
others_stay st i j m p own other = rw ((marked-SamePayment m p).same_id ∙ own, other)

-- To save the same payment leaves every payment the same one.
pub saved-IsAlike :
    (st : PaymentsById) (q : Payment) {p : Payment} (j : String)
    → st q.id ≡ some p
    → SamePayment p q
    → IsAlike (st j) (saved st q j)
saved-IsAlike st q j found same = elim (Bool-cases (q.id == j)) [
  | inr other ↦ rw other (IsAlike-refl (st j))
  | inl here ↦ rw here (rw (ap st (sym ((eq_iff q.id j).0 here)), found) same)
]

module _ {c : Codec} {D G : Type 0} (parts : Parts c D G) (held : D → String → ℤ)
    (stored : D → PaymentsById) (seen : String → ℤ) where
  -- The delivery was handled: the payments stay what they were but for their status, what has been
  -- queued may wait, no balance falls below 0, and no money is
  -- lost or made but by a write of a balance that was read before.
  pub record Moves (d : Delivery) (a a' : App c D G) : Type 0 where
    pub new : List Delivery
    pub queued : a'.outside.pending ≡ a.outside.pending ++ new
    pub alike : (i : String) → IsAlike (stored a.db i) (stored a'.db i)
    pub new_due : AllDue (stored a'.db) new
    pub solvent : (u : String) → neg_part (held a.db u) ≡ 0 → neg_part (held a'.db u) ≡ 0
    pub conserves :
        (u : String)
        → pos_part (held a'.db u)
            + in_flight (stored a'.db) u new
            + settled (stored a.db) u d
            + lost held seen d a.db u
          ≡ pos_part (held a.db u) + carried (stored a.db) u d + gained held seen d a.db u
    pub in_turn :
        (i : String) → turns i new + over (stored a'.db i) ≤ turn i d + over (stored a.db i)
    pub still : (i : String) → turn i d ≡ 0 → stored a'.db i ≡ stored a.db i

  -- How a handler may end: it did its work, or it failed and touched no money.
  pub data Ends (d : Delivery) (a : App c D G) (o : Result (Unit {0}) × App c D G) : Type 0 where
    handled : o.0 ≡ ok tt → Moves d a o.1 → Ends d a o
    fails : o.0 ≢ ok tt → o.1.db ≡ a.db → o.1.outside.pending ≡ a.outside.pending → Ends d a o

  -- A handler that leaves the database alone.
  pub db_kept :
      (d : Delivery) (a a' : App c D G) (new : List Delivery)
      → a'.db ≡ a.db
      → a'.outside.pending ≡ a.outside.pending ++ new
      → AllDue (stored a.db) new
      → ((u : String)
          → in_flight (stored a.db) u new + settled (stored a.db) u d + lost held seen d a.db u
            ≡ carried (stored a.db) u d + gained held seen d a.db u)
      → ((i : String) → turns i new ≤ turn i d)
      → Moves d a a'
  db_kept d a a' new same queued due sum turned = record {
    new = new;
    queued = queued;
    alike = λ i. rw same (IsAlike-refl (stored a.db i));
    new_due = rw same due;
    solvent = λ u h. rw same h;
    conserves = λ u. rw same (omega (arith, sum u));
    in_turn = λ i. rw same (omega (arith, turned i));
    still = λ i idle. rw same refl;
  }

  module _ (law : IsDatabase parts.wallets parts.payments held stored) where
    -- A transition leaves every payment the same one.
    pub marked-IsAlike :
        (i : String) (m : Mark) (d : D) {p : Payment} (j : String)
        → stored d i ≡ some p
        → p.id ≡ i
        → IsAlike (stored d j) (stored (parts.payments.save (marked m p) d).1 j)
    marked-IsAlike i m d {p} j found own = rw (law.store.save_lem (marked m p) d j) (
        saved-IsAlike (stored d) (marked m p) j
          (ap (stored d) ((marked-SamePayment m p).same_id ∙ own) ∙ found) (marked-SamePayment m p))

    -- A handler that saves a transition of the payment `p` and queues its deliveries, and then
    -- those in `more`.
    pub payment_marked :
        (d : Delivery) (a a' : App c D G) (now : ℕ) (i : String) (m : Mark) {p : Payment}
        (more : List Delivery)
        → stored a.db i ≡ some p
        → p.id ≡ i
        → a'.db ≡ (parts.payments.save (marked m p) a.db).1
        → a'.outside.pending
          ≡ (a.outside.pending ++ deliveries (mark_event now i p.user_id m)) ++ more
        → AllDue (stored a.db) more
        → ((u : String)
            → in_flight (stored a.db) u more + settled (stored a.db) u d + lost held seen d a.db u
              ≡ carried (stored a.db) u d + gained held seen d a.db u)
        → ((j : String) → turns j more + (if i == j then ends m else 0) ≤ turn j d)
        → ((j : String) → turn j d ≡ (if i == j then 1 else 0))
        → Moves d a a'
    payment_marked d a a' now i m {p} more found own same queued due sum turned whose =
        let st' : PaymentsById = stored (parts.payments.save (marked m p) a.db).1 in
        let alike : (j : String) → IsAlike (stored a.db j) (st' j) =
          λ j. marked-IsAlike i m a.db j found own in
        let kept : IsKept (stored a.db) st' = IsAlike-IsKept (stored a.db) st' alike in
        record {
          new = deliveries (mark_event now i p.user_id m) ++ more;
          queued =
              queued
              ∙ append_assoc a.outside.pending (deliveries (mark_event now i p.user_id m)) more;
          alike = λ j. rw same (alike j);
          new_due = rw same (
              AllDue-append st' (deliveries (mark_event now i p.user_id m)) more
                (mark_deliveries st' now i "" p.user_id m).0
                (AllDue-kept (stored a.db) st' kept more due));
          solvent = λ u h. rw (same, law.save_apart (marked m p) a.db u) h;
          conserves = λ u.
              rw
                (
                  same,
                  law.save_apart (marked m p) a.db u,
                  in_flight-append st' u (deliveries (mark_event now i p.user_id m)) more,
                  (mark_deliveries st' now i u p.user_id m).1,
                  in_flight-kept (stored a.db) st' kept u more due,
                )
                (omega (arith, sum u));
          in_turn = λ j.
              rw
                (
                  same,
                  law.store.save_lem (marked m p) a.db j,
                  turns-append j (deliveries (mark_event now i p.user_id m)) more,
                  mark_turns now i p.user_id j m,
                )
                (omega (
                  arith,
                  ended_once (stored a.db) i j m p (turns j more) (turn j d) own (turned j),
                ));
          still = λ j idle.
              rw (same, law.store.save_lem (marked m p) a.db j)
                (others_stay (stored a.db) i j m p own (not_turn (i == j) (whose j) idle));
        }
