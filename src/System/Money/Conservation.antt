-- ===== src/System/Money/Conservation.antt =====
-- No user's money is lost or made, whatever the program of cmd/web/main.go does.
use mathlib.Core.List.{append_assoc}
use mathlib.Core.Path.{subst}
use challenge_senior.Prelude.{
  ◌+◌, ◌<◌, ◌^◌, String, false, ◌≡◌, refl, ap, sym, ◌∙◌, inl, inr, none, some, ◌++◌, ◌==◌, arith,
  Bool-cases, eq_iff, eq_refl,
}
use challenge_senior.Prelude.Int.{ℤ, pos_part, neg_part, ◌+ℤ◌}
use challenge_senior.Prelude.Int64.{IsInt64, add64, add64-eq}
use challenge_senior.Kit.Codec.{Codec}
use challenge_senior.Payment.{Payment}
use challenge_senior.Payment.Laws.{saved}
use challenge_senior.Wallet.Laws.{written}
use challenge_senior.Wallet.Service.{is_bad, good_amount}
use challenge_senior.Web.Payment.{Times, CreatePaymentReq, created_event, initialized_event}
use challenge_senior.Web.Wallet.{CreditReq, credited_event}
use challenge_senior.Events.{partition_key}
use challenge_senior.System.{Moment, Parts, deliveries, post_payment}
use challenge_senior.System.Money.{
  gained_by, PaymentsById, IsDatabase, IsPayment, IsKept, in_flight, audits, shows, counts, idle,
  starting,
}
use challenge_senior.System.Money.Wallets.{positive_add}
use challenge_senior.System.Money.Requests.{asked, post_payment_lem, post_credit_lem}
use challenge_senior.System.Money.Deliveries.{delivers-IsSound}
use challenge_senior.System.Money.Runs.{
  Run, Step, delivers, creates, credits, Steps, done, next, IsStart, IsSound, put_in, credited,
  credits_to,
}
use challenge_senior.System.Money.Growth.{
  Grows-IsSound, nothing-Grows, put_in_sum, refused_undoes, written_nonneg,
}

module _ {c : Codec} {D G : Type 0} (parts : Parts c D G) (held : D → String → ℤ)
    (stored : D → PaymentsById) (law : IsDatabase parts.wallets parts.payments held stored) where
  -- A payment that is saved under an id that no payment has.
  fresh-IsKept : (st : PaymentsById) (p : Payment) → st p.id ≡ none → IsKept st (saved st p)
  fresh-IsKept st p fresh i q f = elim (Bool-cases (p.id == i)) [
    | inl here ↦ absurd (cc (sym fresh ∙ ap st ((eq_iff p.id i).0 here) ∙ f))
    | inr other ↦ (q, rw other f, ground arith)
  ]

  fresh-IsPayment :
      (st : PaymentsById) (p : Payment)
      → is_bad p.user_id p.amount ≡ false
      → IsInt64 p.amount
      → ((i : String) (q : Payment) → st i ≡ some q → IsPayment i q)
      → (i : String) (q : Payment) → saved st p i ≡ some q
      → IsPayment i q
  fresh-IsPayment st p good fits before i q f = elim (Bool-cases (p.id == i)) [
    | inl here ↦
        let same : p ≡ q = cc (rw here at f) in
        subst (IsPayment i) same (record { own = (eq_iff p.id i).0 here; good = good; fits = fits })
    | inr other ↦ before i q (rw other at f)
  ]

  creates-IsSound :
      (r : Run c D G) (m : Moment) (t : Times) (req : CreatePaymentReq)
      → stored r.app.db req.payment_id ≡ none
      → IsInt64 req.amount
      → IsSound parts held stored r
      → IsSound parts held stored (record r { app = (post_payment parts m t req r.app).1 })
  unfolding deliveries partition_key created_event initialized_event
  creates-IsSound r m t req fresh fits h =
      let a' = (post_payment parts m t req r.app).1 in
      let p = asked req in
      let st : PaymentsById = stored r.app.db in
      let store : (i : String) → stored (parts.payments.save p r.app.db).1 i ≡ saved st p i =
        law.store.save_lem p r.app.db in
      elim (post_payment_lem parts held stored (held r.app.db) law m t req r.app) [
        | inl (same, kept) ↦ Grows-IsSound parts held stored r a' r.deposited r.undone r.revived h (
            nothing-Grows parts held stored r a' r.deposited r.undone r.revived h same kept
              (λ u. (refl, refl, refl)))
        | inr (good, now, queued) ↦
            Grows-IsSound parts held stored r a' r.deposited r.undone r.revived h (record {
              new =
                  deliveries (created_event p t.created)
                  ++ deliveries (initialized_event p t.created);
              kept = λ i q f. rw (now, store i) (fresh-IsKept st p fresh i q f);
              payments =
                  λ i q f. fresh-IsPayment st p good fits h.payments i q (rw (now, store i) at f);
              queued = queued ∙ append_assoc r.app.outside.pending _ _;
              new_due = (
                idle _ audits,
                (
                  idle _ shows,
                  (
                    idle _ counts,
                    (
                      starting _ {p = p} (rw (now, store p.id, eq_refl p.id)) refl refl,
                      (idle _ audits, (idle _ shows, tt)),
                    ),
                  ),
                ),
              );
              weightless = λ u. omega arith;
              solvent = λ u. rw (now, law.save_apart p r.app.db u) (h.solvent u);
              grown = λ u. rw (now, law.save_apart p r.app.db u);
              bounded = h.bounded;
            })
      ]

  credits-IsSound :
      (r : Run c D G) (m : Moment) (seen : String → ℤ) (req : CreditReq)
      → ((u : String) → neg_part (seen u) ≡ 0)
      → ((u : String)
          → r.deposited u
              + put_in req u
              + (r.revived u + gained_by (credits_to req u) (held r.app.db u) (seen u))
            < 2 ^ 63)
      → IsSound parts held stored r
      → IsSound parts held stored (credited parts held stored m seen req r)
  unfolding deliveries credited_event
  credits-IsSound r m seen req from room h =
      let r' = credited parts held stored m seen req r in
      let a' = r'.app in
      elim (post_credit_lem parts held stored seen law m req r.app) [
        | inl (bad, same, kept) ↦
            Grows-IsSound parts held stored r a' r'.deposited r'.undone r'.revived h (
              nothing-Grows parts held stored r a' r'.deposited r'.undone r'.revived h same kept
                (λ u.
                  let (d, l, g) = refused_undoes parts held stored (held r.app.db) seen req u bad in
                  (omega (arith, d), omega (arith, l), omega (arith, g))))
        | inr (good, now, queued) ↦
            let before = seen req.user_id in
            let added =
              positive_add before req.amount (good_amount req.user_id req.amount good)
                (from req.user_id) in
            let exact = add64-eq before req.amount (
              omega (
                arith,
                added.0,
                added.1,
                h.balanced req.user_id,
                rw (good, eq_refl req.user_id) at (room req.user_id),
              )) in
            let wrote : (u : String)
                → held a'.db u ≡ written (held r.app.db) req.user_id (before +ℤ req.amount) u =
              λ u. rw now (
                law.ledger.set_lem req.user_id (add64 before req.amount) r.app.db u
                ∙ ap (λ b. written (held r.app.db) req.user_id b u) exact) in
            let apart : (i : String) → stored a'.db i ≡ stored r.app.db i =
              λ i. rw now (law.set_apart req.user_id (add64 before req.amount) r.app.db i) in
            Grows-IsSound parts held stored r a' r'.deposited r'.undone r'.revived h (record {
              new = deliveries (credited_event req m.now);
              kept = λ i p f. (p, apart i ∙ f, ground arith);
              payments = λ i p f. h.payments i p (sym (apart i) ∙ f);
              queued = queued;
              new_due = (idle _ shows, tt);
              weightless = λ u. omega arith;
              solvent = λ u. rw (wrote u) (
                  written_nonneg parts held stored (held r.app.db) req.user_id
                    (before +ℤ req.amount) u added.0 (h.solvent u));
              grown = λ u. rw (wrote u) (
                  omega (
                    arith,
                    put_in_sum parts held stored (held r.app.db) seen req u good (from req.user_id),
                  ));
              bounded = room;
            })
      ]

  pub IsStart-IsSound : (r : Run c D G) → IsStart parts held stored r → IsSound parts held stored r
  IsStart-IsSound r h = record {
    payments = λ i p f. absurd (cc (sym (h.no_payments i) ∙ f));
    due = rw h.quiet tt;
    solvent = h.solvent;
    balanced = λ u.
        rw h.quiet (omega (arith, h.in_wallet u, h.unspent u, h.none_undone u, h.none_revived u));
    bounded = λ u. omega (arith, h.bounded u, h.none_revived u);
  }

  pub Step-IsSound :
      {r s : Run c D G}
      → Step parts held stored r s
      → IsSound parts held stored r
      → IsSound parts held stored s
  Step-IsSound (delivers m seen before d after split from room) h =
      delivers-IsSound parts held stored seen from law _ m before d after split room h
  Step-IsSound (creates m t req fresh fits) h = creates-IsSound _ m t req fresh fits h
  Step-IsSound (credits m seen req from room) h = credits-IsSound _ m seen req from room h

  pub Steps-IsSound :
      {r s : Run c D G}
      → Steps parts held stored r s
      → IsSound parts held stored r
      → IsSound parts held stored s
  Steps-IsSound done h = h
  Steps-IsSound (next steps step) h = Step-IsSound step (Steps-IsSound steps h)

  -- Over a database whose balances and payments do not touch each other and whose writes
  -- succeed, whatever the gateway does, and from a start at which nothing waits, no payment is
  -- stored and the balances are what was put in: whatever payments of int64 amounts are asked
  -- for under ids that no payment has, whatever credits come in, in whatever order the
  -- deliveries are handled, and whatever balance that is not below 0 each credit and refund
  -- read before it wrote, while what a user has put in and what has been revived stay below
  -- 2^63 together: no balance falls below 0, and for every user the balance, the stored amounts
  -- of the payments that waiting deliveries carry, the amounts of the payments whose charge
  -- succeeded and what was undone are together what was put in and what was revived. Where a
  -- write stands on a balance that was read before, what had come in since is undone and what
  -- had gone out is revived; a write on the balance that still stands does neither.
  pub money_is_conserved :
      {r s : Run c D G} (u : String)
      → IsStart parts held stored r
      → Steps parts held stored r s
      → (neg_part (held s.app.db u) ≡ 0)
        × (pos_part (held s.app.db u)
              + in_flight (stored s.app.db) u s.app.outside.pending
              + s.spent u
              + s.undone u
            ≡ s.deposited u + s.revived u)
  money_is_conserved {r} u start steps =
      let h = Steps-IsSound steps (IsStart-IsSound r start) in (h.solvent u, h.balanced u)
