-- ===== src/System/Money/Deliveries.antt =====
-- A delivery that is handled (the subscriptions of cmd/web/main.go) keeps every user's sum.
use mathlib.Core.Path.{subst}
use challenge_senior.Prelude.{
  ◌<◌, ◌^◌, ℕ, ◌+◌, String, ◌≡◌, ◌≢◌, refl, ap, sym, ◌∙◌, Option, none, some, List, ◌∷◌, ◌++◌,
  arith,
}
use challenge_senior.Prelude.Int.{ℤ, pos_part, neg_part}
use challenge_senior.Kit.Action.{Result, ok, err, panic}
use challenge_senior.Kit.Codec.{Codec}
use challenge_senior.Payment.{Payment}
use challenge_senior.Payment.Marks.{SamePayment}
use challenge_senior.System.{App, Delivery, Moment, Parts, handle, waiting, deliver}
use challenge_senior.System.Money.{
  late, PaymentsById, IsDatabase, IsPayment, IsAlike, IsKept, IsAlike-IsKept, IsDue, AllDue,
  carried, in_flight, in_flight-append, in_flight-kept, AllDue-append, AllDue-split, AllDue-kept,
}
use challenge_senior.System.Money.Effects.{lost, gained, Moves, Ends, handled, fails, settled}
use challenge_senior.System.Money.Runs.{delivered, Run, IsSound, spent_by}
use challenge_senior.System.Money.Handling.{due_Ends, again_ok, again_fails}

-- What an alike payment is, seen from behind.
IsAlike-back :
    {o' : Option Payment} {q : Payment} (o : Option Payment)
    → o' ≡ some q
    → IsAlike o o'
    → (p : Payment) × (o ≡ some p) × SamePayment p q
IsAlike-back none e h = absurd (rw e at h)
IsAlike-back (some p) e h = (p, refl, rw e at h)

SamePayment-IsPayment :
    {i : String} {p q : Payment} → SamePayment p q → IsPayment i p → IsPayment i q
SamePayment-IsPayment s h = record {
  own = s.same_id ∙ h.own;
  good = rw (s.same_user, s.same_amount) h.good;
  fits = rw s.same_amount h.fits;
}

spent_fails : (r : Result (Unit {0})) (f : String → ℕ) → r ≢ ok tt → spent_by r f ≡ (λ u. 0)
spent_fails (ok tt) f ne = absurd (ne refl)
spent_fails (err x) f ne = refl
spent_fails panic f ne = refl

module _ {c : Codec} {D G : Type 0} (parts : Parts c D G) (held : D → String → ℤ)
    (stored : D → PaymentsById) (seen : String → ℤ) (from : (u : String) → neg_part (seen u) ≡ 0)
    (law : IsDatabase parts.wallets parts.payments held stored) where
  -- The deliveries that stay while one of them is handled.
  rest_due :
      (st : PaymentsById) (before : List Delivery) (d : Delivery) (after : List Delivery)
      → AllDue st (before ++ d ∷ after)
      → IsDue st d.subscriber d.evt × AllDue st (before ++ after)
  rest_due st before d after h =
      let (b, (x, k)) = AllDue-split st before (d ∷ after) h in
      (x, AllDue-append st before after b k)

  rest_in_flight :
      (st : PaymentsById) (u : String) (before : List Delivery) (d : Delivery)
      (after : List Delivery)
      → in_flight st u (before ++ d ∷ after) ≡ in_flight st u (before ++ after) + carried st u d
  rest_in_flight st u before d after =
      omega (arith, in_flight-append st u before (d ∷ after), in_flight-append st u before after)

  -- What waits beside the delivery `d`, in a sound state whose sums are these.
  Beside : Run c D G → List Delivery → Delivery → Type 0
  Beside r rest d =
      AllDue (stored r.app.db) rest
      × ((u : String)
          → pos_part (held r.app.db u)
              + (in_flight (stored r.app.db) u rest + carried (stored r.app.db) u d)
              + r.spent u
              + r.undone u
            ≡ r.deposited u + r.revived u)

  moved-IsSound :
      (r : Run c D G) (rest : List Delivery) (d : Delivery) (a' : App c D G)
      → IsSound parts held stored r
      → Beside r rest d
      → ((u : String) → r.deposited u + (r.revived u + gained held seen d r.app.db u) < 2 ^ 63)
      → Moves parts held stored seen d (waiting parts rest r.app) a'
      → IsSound parts held stored (record r {
        app = a';
        spent = λ u. r.spent u + settled (stored r.app.db) u d;
        undone = λ u. r.undone u + lost held seen d r.app.db u;
        revived = λ u. r.revived u + gained held seen d r.app.db u;
      })
  unfolding Beside
  moved-IsSound r rest d a' h (others, sum) room moves =
      let st : PaymentsById = stored r.app.db in
      let st' : PaymentsById = stored a'.db in
      let kept : IsKept st st' = IsAlike-IsKept st st' moves.alike in
      record {
        payments = λ i p f.
            let (q, g, same) = IsAlike-back (st i) f (moves.alike i) in
            SamePayment-IsPayment same (h.payments i q g);
        due =
            rw moves.queued (
              AllDue-append st' rest moves.new (AllDue-kept st st' kept rest others) moves.new_due);
        solvent = λ u. moves.solvent u (h.solvent u);
        balanced = λ u.
            rw
              (
                moves.queued,
                in_flight-append st' u rest moves.new,
                in_flight-kept st st' kept u rest others,
              )
              (omega (arith, moves.conserves u, sum u));
        bounded = room;
      }

  stuck-IsSound :
      (r : Run c D G) (rest : List Delivery) (d : Delivery) (a' : App c D G)
      → IsSound parts held stored r
      → IsDue (stored r.app.db) d.subscriber d.evt
      → Beside r rest d
      → a'.db ≡ r.app.db
      → a'.outside.pending ≡ rest
      → IsSound parts held stored (record r {
        app = waiting parts (d ∷ a'.outside.pending) a';
        spent = λ u. r.spent u + 0;
        undone = λ u. r.undone u + 0;
        revived = λ u. r.revived u + 0;
      })
  unfolding Beside
  stuck-IsSound r rest d a' h this (others, sum) same kept =
      let st : PaymentsById = stored r.app.db in
      record {
        payments = λ i p f. h.payments i p (rw same at f);
        due = (
          subst (λ x. IsDue (stored x) d.subscriber d.evt) (sym same) this,
          subst (λ ds. AllDue (stored a'.db) ds) (sym kept)
              (subst (λ x. AllDue (stored x) rest) (sym same) others),
        );
        solvent = λ u. rw same (h.solvent u);
        balanced = λ u.
            subst
              (λ x.
                pos_part (held x u)
                  + in_flight (stored x) u (d ∷ a'.outside.pending)
                  + (r.spent u + 0)
                  + (r.undone u + 0)
                ≡ r.deposited u + (r.revived u + 0))
              (sym same) (rw (ap (in_flight st u) kept) (omega (arith, sum u)));
        bounded = λ u. omega (arith, h.bounded u);
      }

  -- The sum beside a delivery that waits, and what handling it does.
  rest_sum :
      (r : Run c D G) (before : List Delivery) (d : Delivery) (after : List Delivery)
      → r.app.outside.pending ≡ before ++ d ∷ after
      → IsSound parts held stored r
      → (u : String)
      → pos_part (held r.app.db u)
          + (in_flight (stored r.app.db) u (before ++ after) + carried (stored r.app.db) u d)
          + r.spent u
          + r.undone u
        ≡ r.deposited u + r.revived u
  rest_sum r before d after split h u =
      rw
        (ap (in_flight (stored r.app.db) u) split
          ∙ rest_in_flight (stored r.app.db) u before d after)
        at (h.balanced u)

  -- What has been put in or revived, and what handling `d` revives, are an int64 together.
  abbrev pub Room : Run c D G → Delivery → Type 0
  Room r d = (u : String) → r.deposited u + (r.revived u + gained held seen d r.app.db u) < 2 ^ 63

  pub delivered_Ends :
      (r : Run c D G) (m : Moment) (before : List Delivery) (d : Delivery) (after : List Delivery)
      → r.app.outside.pending ≡ before ++ d ∷ after
      → Room r d
      → IsSound parts held stored r
      → Ends parts held stored seen d
          (waiting parts (before ++ after) r.app)
          (handle (late seen parts) m d.subscriber d.evt (waiting parts (before ++ after) r.app))
  delivered_Ends r m before d after split room h =
      due_Ends parts held stored seen law m (waiting parts (before ++ after) r.app) h.payments
        h.solvent (λ u. omega (arith, rest_sum r before d after split h u, room u)) from
        (rest_due (stored r.app.db) before d after (rw split at h.due)).0

  pub delivers-IsSound :
      (r : Run c D G) (m : Moment) (before : List Delivery) (d : Delivery) (after : List Delivery)
      → r.app.outside.pending ≡ before ++ d ∷ after
      → Room r d
      → IsSound parts held stored r
      → IsSound parts held stored (delivered parts held stored m seen before d after r)
  unfolding deliver Beside
  delivers-IsSound r m before d after split room h =
      let st : PaymentsById = stored r.app.db in
      let (this, others) = rest_due st before d after (rw split at h.due) in
      let sum = rest_sum r before d after split h in
      let a : App c D G = waiting parts (before ++ after) r.app in
      let o = handle (late seen parts) m d.subscriber d.evt a in
      elim (delivered_Ends r m before d after split room h) [
        | handled succeeded moves ↦
            rw (again_ok (late seen parts) held stored seen d o succeeded, succeeded)
              (moved-IsSound r (before ++ after) d o.1 h (others, sum) room moves)
        | fails failed same kept ↦
            rw
              (
                again_fails (late seen parts) held stored seen d o failed,
                spent_fails o.0 (λ v. settled st v d) failed,
                spent_fails o.0 (λ v. lost held seen d r.app.db v) failed,
                spent_fails o.0 (λ v. gained held seen d r.app.db v) failed,
              )
              (stuck-IsSound r (before ++ after) d o.1 h this (others, sum) same kept)
      ]
