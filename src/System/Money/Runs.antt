-- ===== src/System/Money/Runs.antt =====
-- The whole of cmd/web/main.go as a step relation: requests come in and deliveries are handled, in
-- any order. Beside the program stands what each user has put in, and what of it has been spent.
use challenge_senior.Prelude.{
  ℕ, ◌+◌, ◌<◌, Bool, false, ◌^◌, String, ◌≡◌, none, some, List, [], ◌∷◌, ◌++◌, if◌then◌else◌, ◌==◌,
}
use challenge_senior.Prelude.Int.{ℤ, pos_part, neg_part}
use challenge_senior.Prelude.Int64.{IsInt64}
use challenge_senior.Kit.Action.{Result, ok, err, panic}
use challenge_senior.Kit.Codec.{Codec}
use challenge_senior.Payment.{Payment}
use challenge_senior.Wallet.Service.{is_bad}
use challenge_senior.Web.Payment.{Times, CreatePaymentReq}
use challenge_senior.Web.Wallet.{CreditReq}
use challenge_senior.System.{
  App, Delivery, Moment, Parts, handle, waiting, deliver, post_payment, post_credit,
}
use challenge_senior.System.Money.{
  PaymentsById, late, lost_by, gained_by, IsPayment, AllDue, in_flight,
}
use challenge_senior.System.Money.Effects.{settled, lost, gained}

-- The program, what each user has put into the wallet, and what of it has paid for payments whose
-- charge succeeded. A write of a balance that was read before undoes what others have done to it in
-- between: `undone` is what had come in, and `revived` what had gone out.
pub record Run (c : Codec) (D G : Type 0) : Type 0 where
  pub app : App c D G
  pub deposited : String → ℕ
  pub spent : String → ℕ
  pub undone : String → ℕ
  pub revived : String → ℕ

-- What a request to credit a wallet puts in for user `u`.
abbrev pub put_in : CreditReq → String → ℕ
put_in req u =
    if is_bad req.user_id req.amount then 0 else if req.user_id == u then pos_part req.amount else 0

-- Whether a request writes the balance of user `u`.
abbrev pub credits_to : CreditReq → String → Bool
credits_to req u = if is_bad req.user_id req.amount then false else req.user_id == u

-- What a handled delivery spends, or undoes: nothing where its handler fails.
abbrev pub spent_by : Result (Unit {0}) → (String → ℕ) → String → ℕ
spent_by (ok _) f u = f u
spent_by (err e) f u = 0
spent_by panic f u = 0

module _ {c : Codec} {D G : Type 0} (parts : Parts c D G) (held : D → String → ℤ)
    (stored : D → PaymentsById) where
  -- The run once the delivery `d` has been handled.
  abbrev pub delivered :
      Moment → (String → ℤ) → List Delivery → Delivery → List Delivery → Run c D G → Run c D G
  delivered m seen before d after r =
      let o =
        (handle (late seen parts) m d.subscriber d.evt (waiting parts (before ++ after) r.app)).0 in
      record r {
        app = deliver (late seen parts) m before d after r.app;
        spent = λ u. r.spent u + spent_by o (λ v. settled (stored r.app.db) v d) u;
        undone = λ u. r.undone u + spent_by o (λ v. lost held seen d r.app.db v) u;
        revived = λ u. r.revived u + spent_by o (λ v. gained held seen d r.app.db v) u;
      }

  -- The run once a request to credit a wallet has been answered.
  abbrev pub credited : Moment → (String → ℤ) → CreditReq → Run c D G → Run c D G
  credited m seen req r = record r {
    app = (post_credit (late seen parts) m req r.app).1;
    deposited = λ u. r.deposited u + put_in req u;
    undone = λ u. r.undone u + lost_by (credits_to req u) (held r.app.db u) (seen u);
    revived = λ u. r.revived u + gained_by (credits_to req u) (held r.app.db u) (seen u);
  }

  -- A delivery that waits is handled; a payment is asked for under an id that no payment has; a
  -- wallet is credited. What the reads of balances return is `seen`: the call may have made its read
  -- at any time before, so it is any balance that is not below 0. What a user has put in and what has
  -- been revived stay an int64 together.
  pub data Step (r : Run c D G) : Run c D G → Type 0 where
    delivers :
        (m : Moment) (seen : String → ℤ) (before : List Delivery) (d : Delivery)
        (after : List Delivery)
        → r.app.outside.pending ≡ before ++ d ∷ after
        → ((u : String) → neg_part (seen u) ≡ 0)
        → ((u : String) → r.deposited u + (r.revived u + gained held seen d r.app.db u) < 2 ^ 63)
        → Step r (delivered m seen before d after r)
    creates :
        (m : Moment) (t : Times) (req : CreatePaymentReq)
        → stored r.app.db req.payment_id ≡ none
        → IsInt64 req.amount
        → Step r (record r { app = (post_payment parts m t req r.app).1 })
    credits :
        (m : Moment) (seen : String → ℤ) (req : CreditReq)
        → ((u : String) → neg_part (seen u) ≡ 0)
        → ((u : String)
            → r.deposited u
                + put_in req u
                + (r.revived u + gained_by (credits_to req u) (held r.app.db u) (seen u))
              < 2 ^ 63)
        → Step r (credited m seen req r)

  pub data Steps (r : Run c D G) : Run c D G → Type 0 where
    done : Steps r r
    next : {s t : Run c D G} → Steps r s → Step s t → Steps r t

  -- The program as it starts: nothing waits, no payment is stored, and the wallets hold what has
  -- been put in.
  pub record IsStart (r : Run c D G) : Type 0 where
    pub quiet : r.app.outside.pending ≡ []
    pub no_payments : (i : String) → stored r.app.db i ≡ none
    pub solvent : (u : String) → neg_part (held r.app.db u) ≡ 0
    pub unspent : (u : String) → r.spent u ≡ 0
    pub none_undone : (u : String) → r.undone u ≡ 0
    pub none_revived : (u : String) → r.revived u ≡ 0
    pub in_wallet : (u : String) → pos_part (held r.app.db u) ≡ r.deposited u
    pub bounded : (u : String) → r.deposited u < 2 ^ 63

  -- The invariant.
  pub record IsSound (r : Run c D G) : Type 0 where
    pub payments : (i : String) (p : Payment) → stored r.app.db i ≡ some p → IsPayment i p
    pub due : AllDue (stored r.app.db) r.app.outside.pending
    pub solvent : (u : String) → neg_part (held r.app.db u) ≡ 0
    pub balanced :
        (u : String)
        → pos_part (held r.app.db u)
            + in_flight (stored r.app.db) u r.app.outside.pending
            + r.spent u
            + r.undone u
          ≡ r.deposited u + r.revived u
    pub bounded : (u : String) → r.deposited u + r.revived u < 2 ^ 63
