-- ===== src/System/Money/Growth.antt =====
-- What a request of cmd/web/handlers adds to the program: payments, deliveries and money put in.
use mathlib.Core.List.{append-nil}
use challenge_senior.Prelude.{
  ℕ, ◌+◌, ◌<◌, ◌^◌, String, true, false, ◌≡◌, refl, sym, ◌∙◌, some, List, [], ◌++◌, arith,
}
use challenge_senior.Prelude.Int.{ℤ, pos_part, neg_part, ◌+ℤ◌}
use challenge_senior.Kit.Codec.{Codec}
use challenge_senior.Payment.{Payment}
use challenge_senior.Wallet.Laws.{written}
use challenge_senior.Wallet.Service.{is_bad}
use challenge_senior.Web.Wallet.{CreditReq}
use challenge_senior.System.{App, Delivery, Parts}
use challenge_senior.System.Money.{
  lost_by, gained_by, PaymentsById, IsPayment, IsKept, AllDue, in_flight, in_flight-append,
  in_flight-kept, AllDue-append, AllDue-kept,
}
use challenge_senior.System.Money.Wallets.{rewritten_sum}
use challenge_senior.System.Money.Runs.{Run, IsSound, put_in, credits_to}

module _ {c : Codec} {D G : Type 0} (parts : Parts c D G) (held : D → String → ℤ)
    (stored : D → PaymentsById) where
  -- What a request did: payments may have been added and deliveries that carry nothing, and a
  -- balance has grown by what was put in, but for what the write undid.
  pub record Grows (r : Run c D G) (a' : App c D G) (deposited' undone' revived' : String → ℕ)
      : Type 0 where
    pub new : List Delivery
    pub kept : IsKept (stored r.app.db) (stored a'.db)
    pub payments : (i : String) (p : Payment) → stored a'.db i ≡ some p → IsPayment i p
    pub queued : a'.outside.pending ≡ r.app.outside.pending ++ new
    pub new_due : AllDue (stored a'.db) new
    pub weightless : (u : String) → in_flight (stored a'.db) u new ≡ 0
    pub solvent : (u : String) → neg_part (held a'.db u) ≡ 0
    pub grown :
        (u : String)
        → pos_part (held a'.db u) + undone' u + (r.deposited u + r.revived u)
          ≡ pos_part (held r.app.db u) + r.undone u + (deposited' u + revived' u)
    pub bounded : (u : String) → deposited' u + revived' u < 2 ^ 63

  pub Grows-IsSound :
      (r : Run c D G) (a' : App c D G) (deposited' undone' revived' : String → ℕ)
      → IsSound parts held stored r
      → Grows r a' deposited' undone' revived'
      → IsSound parts held stored
          (record r { app = a'; deposited = deposited'; undone = undone'; revived = revived' })
  Grows-IsSound r a' deposited' undone' revived' h g =
      let st : PaymentsById = stored r.app.db in
      let st' : PaymentsById = stored a'.db in
      let ds = r.app.outside.pending in
      record {
        payments = g.payments;
        due =
            rw g.queued (AllDue-append st' ds g.new (AllDue-kept st st' g.kept ds h.due) g.new_due);
        solvent = g.solvent;
        balanced = λ u.
            rw
              (
                g.queued,
                in_flight-append st' u ds g.new,
                in_flight-kept st st' g.kept u ds h.due,
                g.weightless u,
              )
              (omega (arith, g.grown u, h.balanced u));
        bounded = g.bounded;
      }

  -- A request that is refused.
  pub nothing-Grows :
      (r : Run c D G) (a' : App c D G) (deposited' undone' revived' : String → ℕ)
      → IsSound parts held stored r
      → a'.db ≡ r.app.db
      → a'.outside.pending ≡ r.app.outside.pending
      → ((u : String)
          → (deposited' u ≡ r.deposited u) × (undone' u ≡ r.undone u) × (revived' u ≡ r.revived u))
      → Grows r a' deposited' undone' revived'
  nothing-Grows r a' deposited' undone' revived' h same kept none_put_in = record {
    new = [];
    kept = λ i p f. (p, rw same f, ground arith);
    payments = λ i p f. h.payments i p (rw same at f);
    queued = kept ∙ sym (append-nil _);
    new_due = tt;
    weightless = λ u. refl;
    solvent = λ u. rw same (h.solvent u);
    grown = λ u. let (d, l, g) = none_put_in u in rw same (omega (arith, d, l, g));
    bounded = λ u. let (d, l, g) = none_put_in u in omega (arith, h.bounded u, d, g);
  }

  -- What a credit puts in and undoes, for every user.
  pub put_in_sum :
      (h seen : String → ℤ) (req : CreditReq) (u : String)
      → is_bad req.user_id req.amount ≡ false
      → neg_part (seen req.user_id) ≡ 0
      → pos_part (written h req.user_id (seen req.user_id +ℤ req.amount) u)
          + lost_by (credits_to req u) (h u) (seen u)
        ≡ pos_part (h u) + put_in req u + gained_by (credits_to req u) (h u) (seen u)
  put_in_sum h seen req u good nonneg =
      rw good (rewritten_sum h seen req.user_id u req.amount good nonneg)

  -- Nothing is undone by a request that is refused.
  pub refused_undoes :
      (h seen : String → ℤ) (req : CreditReq) (u : String)
      → is_bad req.user_id req.amount ≡ true
      → (put_in req u ≡ 0)
        × (lost_by (credits_to req u) (h u) (seen u) ≡ 0)
        × (gained_by (credits_to req u) (h u) (seen u) ≡ 0)
  refused_undoes h seen req u bad = rw bad (refl, refl, refl)

  pub written_nonneg :
      (h : String → ℤ) (user : String) (v : ℤ) (u : String)
      → neg_part v ≡ 0
      → neg_part (h u) ≡ 0
      → neg_part (written h user v u) ≡ 0
  written_nonneg h user v u a b = ground arith
