-- ===== src/System/Money/Endings.antt =====
-- A payment's way through the program of cmd/web/main.go: one delivery moves it on at a time, and none
-- once its status is a last one.
use challenge_senior.Prelude.{
  ◌<◌, ◌^◌, ◌+◌, ◌≤◌, String, true, ◌≡◌, refl, ap, ◌∙◌, inl, inr, none, some, List, ◌∷◌, ◌++◌,
  arith,
}
use challenge_senior.Prelude.Int.{ℤ, neg_part}
use challenge_senior.Prelude.Int64.{add64}
use challenge_senior.Kit.Codec.{Codec}
use challenge_senior.Payment.{Payment}
use challenge_senior.Payment.Laws.{saved}
use challenge_senior.Web.Payment.{Times, CreatePaymentReq, created_event, initialized_event}
use challenge_senior.Web.Wallet.{CreditReq, credited_event}
use challenge_senior.Events.{partition_key}
use challenge_senior.System.{
  App, Delivery, Moment, Parts, handle, waiting, deliver, deliveries, post_payment, post_credit,
}
use challenge_senior.System.Money.{late, PaymentsById, IsDatabase}
use challenge_senior.System.Money.Turns.{turn, turns, over, has_ended, turns-append}
use challenge_senior.System.Money.Effects.{gained, handled, fails}
use challenge_senior.System.Money.Requests.{asked, post_payment_lem, post_credit_lem}
use challenge_senior.System.Money.Handling.{again_ok, again_fails}
use challenge_senior.System.Money.Deliveries.{delivered_Ends}
use challenge_senior.System.Money.Conservation.{IsStart-IsSound, Steps-IsSound}
use challenge_senior.System.Money.Runs.{
  Run, Step, delivers, creates, credits, Steps, done, next, IsStart, IsSound,
}
use challenge_senior.System.Money.Waiting.{rest_turns, fresh_turns, fresh_last}

module _ {c : Codec} {D G : Type 0} (parts : Parts c D G) (held : D → String → ℤ)
    (stored : D → PaymentsById) where
  -- One delivery at most moves a payment on, and none where its status is a last one.
  IsSteady : App c D G → Type 0
  IsSteady a = (i : String) → turns i a.outside.pending + over (stored a.db i) ≤ 1

  -- The payments that have ended stay what they are.
  record Keeps (a a' : App c D G) : Type 0 where
    steady : IsSteady a'
    last : (i : String) → over (stored a.db i) ≡ 1 → stored a'.db i ≡ stored a.db i

  module _ (law : IsDatabase parts.wallets parts.payments held stored) where
    delivers-Keeps :
        (r : Run c D G) (m : Moment) (seen : String → ℤ) (before : List Delivery) (d : Delivery)
        (after : List Delivery)
        → r.app.outside.pending ≡ before ++ d ∷ after
        → ((u : String) → neg_part (seen u) ≡ 0)
        → ((u : String) → r.deposited u + (r.revived u + gained held seen d r.app.db u) < 2 ^ 63)
        → IsSound parts held stored r
        → IsSteady r.app
        → Keeps r.app (deliver (late seen parts) m before d after r.app)
    unfolding deliver IsSteady
    delivers-Keeps r m seen before d after split from room h steady =
        let o =
          handle (late seen parts) m d.subscriber d.evt (waiting parts (before ++ after) r.app) in
        let sum : (i : String)
            → turns i (before ++ after) + turn i d + over (stored r.app.db i) ≤ 1 =
          λ i. omega (arith, steady i, ap (turns i) split, rest_turns i before d after) in
        elim (delivered_Ends parts held stored seen from law r m before d after split room h) [
          | handled succeeded moves ↦
              rw (again_ok (late seen parts) held stored seen d o succeeded) (record {
                steady = λ i. omega (
                  arith,
                  sum i,
                  moves.in_turn i,
                  ap (turns i) moves.queued,
                  turns-append i (before ++ after) moves.new,
                );
                last = λ i ended. moves.still i (omega (arith, sum i, ended));
              })
          | fails failed same kept ↦
              rw (again_fails (late seen parts) held stored seen d o failed) (record {
                steady =
                    λ i. omega (arith, sum i, ap (λ x. over (stored x i)) same, ap (turns i) kept);
                last = λ i ended. ap (λ x. stored x i) same;
              })
        ]

    creates-Keeps :
        (r : Run c D G) (m : Moment) (t : Times) (req : CreatePaymentReq)
        → stored r.app.db req.payment_id ≡ none
        → IsSound parts held stored r
        → IsSteady r.app
        → Keeps r.app (post_payment parts m t req r.app).1
    unfolding IsSteady deliveries partition_key created_event initialized_event
    creates-Keeps r m t req fresh h steady =
        let a' = (post_payment parts m t req r.app).1 in
        let st : PaymentsById = stored r.app.db in
        let p = asked req in
        let ds = r.app.outside.pending in
        let first = deliveries (created_event p t.created) in
        let second = deliveries (initialized_event p t.created) in
        elim (post_payment_lem parts held stored (held r.app.db) law m t req r.app) [
          | inl (same, kept) ↦ record {
            steady =
                λ i. omega (arith, steady i, ap (λ x. over (stored x i)) same, ap (turns i) kept);
            last = λ i ended. ap (λ x. stored x i) same;
          }
          | inr (good, now, queued) ↦
              let store : (i : String) → stored a'.db i ≡ saved st p i =
                λ i. ap (λ x. stored x i) now ∙ law.store.save_lem p r.app.db i in
              record {
                steady = λ i.
                    fresh_turns st ds req i fresh (h.due) (steady i) (turns i a'.outside.pending)
                      (over (stored a'.db i))
                      (omega (
                        arith,
                        ap (turns i) queued,
                        turns-append i (ds ++ first) second,
                        turns-append i ds first,
                      ))
                      (ap over (store i));
                last = λ i ended. store i ∙ fresh_last st req i fresh ended;
              }
        ]

    credits-Keeps :
        (r : Run c D G) (m : Moment) (seen : String → ℤ) (req : CreditReq)
        → IsSteady r.app
        → Keeps r.app (post_credit (late seen parts) m req r.app).1
    unfolding IsSteady deliveries credited_event
    credits-Keeps r m seen req steady =
        let a' = (post_credit (late seen parts) m req r.app).1 in
        let ds = r.app.outside.pending in
        elim (post_credit_lem parts held stored seen law m req r.app) [
          | inl (bad, same, kept) ↦ record {
            steady =
                λ i. omega (arith, steady i, ap (λ x. over (stored x i)) same, ap (turns i) kept);
            last = λ i ended. ap (λ x. stored x i) same;
          }
          | inr (good, now, queued) ↦
              let apart : (i : String) → stored a'.db i ≡ stored r.app.db i = λ i.
                ap (λ x. stored x i) now
                ∙ law.set_apart req.user_id (add64 (seen req.user_id) req.amount) r.app.db i in
              record {
                steady = λ i. omega (
                  arith,
                  steady i,
                  ap over (apart i),
                  ap (turns i) queued,
                  turns-append i ds (deliveries (credited_event req m.now)),
                );
                last = λ i ended. apart i;
              }
        ]

    Step-Keeps :
        {r s : Run c D G}
        → Step parts held stored r s
        → IsSound parts held stored r
        → IsSteady r.app
        → Keeps r.app s.app
    Step-Keeps {r} (delivers m seen before d after split from room) h steady =
        delivers-Keeps r m seen before d after split from room h steady
    Step-Keeps {r} (creates m t req fresh fits) h steady = creates-Keeps r m t req fresh h steady
    Step-Keeps {r} (credits m seen req from room) h steady = credits-Keeps r m seen req steady

    Steps-Keeps :
        {r s : Run c D G}
        → Steps parts held stored r s
        → IsSound parts held stored r
        → IsSteady r.app
        → Keeps r.app s.app
    Steps-Keeps done h steady = record { steady = steady; last = λ i ended. refl }
    Steps-Keeps (next steps step) h steady =
        let k = Steps-Keeps steps h steady in
        let l = Step-Keeps step (Steps-IsSound parts held stored law steps h) k.steady in
        record {
          steady = l.steady;
          last = λ i ended. l.last i (ap over (k.last i ended) ∙ ended) ∙ k.last i ended;
        }

    IsStart-IsSteady : (r : Run c D G) → IsStart parts held stored r → IsSteady r.app
    unfolding IsSteady
    IsStart-IsSteady r h i = omega (arith, ap (turns i) h.quiet, ap over (h.no_payments i))

    -- Over a database whose balances and payments do not touch each other and whose writes
    -- succeed, whatever the gateway does, from a start at which nothing waits, no payment is
    -- stored and the balances are what was put in, for payments of int64 amounts that are asked
    -- for under ids that no payment has, whatever balance that is not below 0 each credit and
    -- refund read before it wrote, while what a user has put in and what such writes have
    -- revived stay below 2^63 together, and in whatever order the deliveries are handled: once
    -- a payment is rejected, succeeded or failed, it is still stored with that status, reason
    -- and gateway id after whatever comes next, and no delivery waits that would debit it,
    -- charge it, try to recover its charge or change its status; and for every payment at most
    -- one such delivery waits.
    pub ended_payment_stays :
        {r s t : Run c D G} (i : String) {p : Payment}
        → IsStart parts held stored r
        → Steps parts held stored r s
        → Steps parts held stored s t
        → stored s.app.db i ≡ some p
        → has_ended p ≡ true
        → (stored t.app.db i ≡ some p)
          × (turns i t.app.outside.pending ≡ 0)
          × ((j : String) → turns j t.app.outside.pending ≤ 1)
    unfolding IsSteady
    ended_payment_stays {r} {s} {t} i {p} start steps more found ended =
        let sound = IsStart-IsSound parts held stored law r start in
        let before = Steps-Keeps steps sound (IsStart-IsSteady r start) in
        let after =
          Steps-Keeps more (Steps-IsSound parts held stored law steps sound) before.steady in
        let over_s : over (stored s.app.db i) ≡ 1 = rw (found, ended) refl in
        let same = after.last i over_s in
        (
          same ∙ found,
          omega (arith, after.steady i, ap over same, over_s),
          λ j. omega (arith, after.steady j),
        )
