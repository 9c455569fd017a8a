-- ===== src/System/Money/Wallets.antt =====
-- The two handlers that write a balance, as they are subscribed in cmd/web/main.go: what each does to
-- the money of every user.
use challenge_senior.Prelude.{
  ◌+◌, ◌≤◌, ◌<◌, ◌^◌, String, false, ◌≡◌, refl, ap, sym, ◌∙◌, ◌⊎◌, inl, inr, some, List, ◌++◌,
  if◌then◌else◌, ◌==◌, arith, Bool-cases, eq_iff,
}
use challenge_senior.Prelude.Int.{ℤ, pos, negsuc, pos_part, neg_part, ◌+ℤ◌, ◌-ℤ◌, ◌≤ℤ◌, ◌<ℤ◌}
use challenge_senior.Prelude.Int64.{IsInt64, add64, add64-eq, sub64_covered}
use challenge_senior.Kit.Errors.{sentinel, is_internal, is, insufficient_funds}
use challenge_senior.Kit.Action.{ok, err}
use challenge_senior.Kit.Codec.{Codec}
use challenge_senior.Kit.Observability.{bump, wallet_debits_add, wallet_refunds_add}
use challenge_senior.Wallet.{Wallet, debit, refund}
use challenge_senior.Wallet.Laws.{written}
use challenge_senior.Wallet.Service.{is_bad, good_amount}
use challenge_senior.Payment.{Payment}
use challenge_senior.Events.{
  WalletDebitRequested, WalletRefundRequested, wallet_refund_requested, partition_key,
}
use challenge_senior.Events as Events
use challenge_senior.Consumers.WalletEvent.{
  handle_wallet_debit_requested, handle_wallet_refund_requested, debited,
}
use challenge_senior.System.{
  App, Delivery, Moment, Parts, handle, deliveries, wallet_debit_requested,
}
use challenge_senior.System as Sys
use challenge_senior.System.Money.Turns.{turn, turns}
use challenge_senior.System.Money.{
  late, PaymentsById, IsDatabase, lost_by, gained_by, AllDue, amount_for, carried, in_flight, idle,
  audits, shows, counts, logs_debit, logs_refund, rejecting, taken,
}
use challenge_senior.System.Money.Effects.{
  lost, gained, Moves, Ends, handled, db_kept, settled, IsAlike-refl,
}

covered_sub :
    (a b : ℤ)
    → pos 0 <ℤ b
    → b ≤ℤ a
    → neg_part a ≡ 0
    → (neg_part (a -ℤ b) ≡ 0) × (pos_part (a -ℤ b) + pos_part b ≡ pos_part a)
unfolding ◌-ℤ◌
covered_sub (pos n) (pos k) h k' z = ground arith
covered_sub (pos n) (negsuc k) h k' z = absurd (omega (arith, h))
covered_sub (negsuc n) b h k' z = absurd (omega (arith, z))

pub positive_add :
    (a b : ℤ)
    → pos 0 <ℤ b
    → neg_part a ≡ 0
    → (neg_part (a +ℤ b) ≡ 0) × (pos_part (a +ℤ b) ≡ pos_part a + pos_part b)
unfolding ◌+ℤ◌
positive_add (pos n) (pos k) h z = ground arith
positive_add (pos n) (negsuc k) h z = absurd (omega (arith, h))
positive_add (negsuc n) b h z = absurd (omega (arith, z))

-- What is taken from `user` is carried by the delivery that stands for it.
taken_sum :
    (h : String → ℤ) (user u : String) (amount : ℤ)
    → is_bad user amount ≡ false
    → amount ≤ℤ h user
    → neg_part (h user) ≡ 0
    → pos_part (written h user (h user -ℤ amount) u) + (if user == u then pos_part amount else 0)
      ≡ pos_part (h u)
taken_sum h user u amount good covered nonneg = elim (Bool-cases (user == u)) [
  | inr other ↦ rw other (omega arith)
  | inl here ↦
      rw (here, ap h (sym ((eq_iff user u).0 here)))
        (covered_sub (h user) amount (good_amount user amount good) covered nonneg).1
]

-- A write of what was seen and the amount, where another balance may stand by now.
pub rewritten_sum :
    (h seen : String → ℤ) (user u : String) (amount : ℤ)
    → is_bad user amount ≡ false
    → neg_part (seen user) ≡ 0
    → pos_part (written h user (seen user +ℤ amount) u) + lost_by (user == u) (h u) (seen u)
      ≡ pos_part (h u)
        + (if user == u then pos_part amount else 0)
        + gained_by (user == u) (h u) (seen u)
rewritten_sum h seen user u amount good nonneg = elim (Bool-cases (user == u)) [
  | inr other ↦ rw other (omega arith)
  | inl here ↦
      let added = positive_add (seen user) amount (good_amount user amount good) nonneg in
      let same : seen u ≡ seen user = ap seen (sym ((eq_iff user u).0 here)) in
      rw (here, same) (omega (arith, added.1))
]

-- The stored amount of a payment, where the event names its user and amount.
pub named_amount :
    (st : PaymentsById) (i user u : String) (amount : ℤ) {p : Payment}
    → st i ≡ some p
    → user ≡ p.user_id
    → amount ≡ p.amount
    → amount_for u (st i) ≡ (if user == u then pos_part amount else 0)
named_amount st i user u amount found same_user same_amount = rw (found, same_user, same_amount)

module _ {c : Codec} {D G : Type 0} (parts : Parts c D G) (held : D → String → ℤ)
    (stored : D → PaymentsById) (seen : String → ℤ)
    (law : IsDatabase parts.wallets parts.payments held stored) where
  -- A handler that writes the balance `v` for `user` and leaves the payments alone.
  balance_written :
      (d : Delivery) (a a' : App c D G) (user : String) (v : ℤ) (new : List Delivery)
      → ((u : String) → held a'.db u ≡ written (held a.db) user v u)
      → ((i : String) → stored a'.db i ≡ stored a.db i)
      → a'.outside.pending ≡ a.outside.pending ++ new
      → AllDue (stored a'.db) new
      → neg_part v ≡ 0
      → ((u : String)
          → pos_part (written (held a.db) user v u)
              + in_flight (stored a'.db) u new
              + settled (stored a.db) u d
              + lost held seen d a.db u
            ≡ pos_part (held a.db u) + carried (stored a.db) u d + gained held seen d a.db u)
      → ((i : String) → turns i new ≤ turn i d)
      → Moves parts held stored seen d a a'
  balance_written d a a' user v new wrote same queued due nonneg sum turned = record {
    new = new;
    queued = queued;
    alike = λ i. rw (same i) (IsAlike-refl (stored a.db i));
    new_due = due;
    solvent = λ u h. rw (wrote u) (ground arith);
    conserves = λ u. rw (wrote u) (sum u);
    in_turn = λ i. rw (same i) (omega (arith, turned i));
    still = λ i idle. same i;
  }

  -- The debit of a request that the service takes.
  debit_covered :
      (u : String) (a : ℤ) (w : Wallet D)
      → is_bad u a ≡ false
      → a ≤ℤ held w.repo u
      → debit (late seen parts).wallets u a w ≡ (
        ok tt,
        record {
          repo = (parts.wallets.debit_if_sufficient_funds u a w.repo).1;
          metrics = bump (wallet_debits_add (pos 1)) w.metrics;
        },
      )
  unfolding debit
  debit_covered u a w good covered =
      rw (good, law.debit_saved u a w.repo (good_amount u a good) covered)

  debit_refused :
      (u : String) (a : ℤ) (w : Wallet D)
      → is_bad u a ≡ false
      → held w.repo u <ℤ a
      → debit (late seen parts).wallets u a w ≡ (err (sentinel insufficient_funds), w)
  unfolding debit
  debit_refused u a w good short =
      rw (good, law.ledger.debit_short u a w.repo (good_amount u a good) short)

  refund_taken :
      (u : String) (a : ℤ) (w : Wallet D)
      → is_bad u a ≡ false
      → refund (late seen parts).wallets u a w ≡ (
        ok tt,
        record {
          repo = (parts.wallets.set_balance u (add64 (seen u) a) w.repo).1;
          metrics = bump (wallet_refunds_add (pos 1)) w.metrics;
        },
      )
  unfolding refund
  refund_taken u a w good = rw (good, law.set_saved u (add64 (seen u) a) w.repo)

  compare_held : (a b : ℤ) → (a <ℤ b) ⊎ (b ≤ℤ a)
  compare_held a b = omega arith

  pub handle_debiting :
      (m : Moment) (e : WalletDebitRequested) (a : App c D G) {p : Payment}
      → stored a.db e.payment_id ≡ some p
      → is_bad e.user_id e.amount ≡ false
      → IsInt64 e.amount
      → e.user_id ≡ p.user_id
      → e.amount ≡ p.amount
      → neg_part (held a.db e.user_id) ≡ 0
      → pos_part (held a.db e.user_id) < 2 ^ 63
      → Ends parts held stored seen
          (record { subscriber = wallet_debit_requested; evt = Events.wallet_debit_requested e })
          a
          (handle (late seen parts) m wallet_debit_requested (Events.wallet_debit_requested e) a)
  unfolding handle handle_wallet_debit_requested deliveries partition_key is_internal is
  handle_debiting m e a found good fits user amount nonneg bounded =
      let w : Wallet D = record { repo = a.db; metrics = a.metrics } in
      elim (compare_held (held a.db e.user_id) e.amount) [
        | inl short ↦ rw (debit_refused e.user_id e.amount w good short) (
            handled refl (
              db_kept parts held stored seen _ a _ _ refl refl (rejecting _ found, tt)
                (λ u. omega arith) (λ i. omega arith)))
        | inr covered ↦
            let exact =
              sub64_covered (held a.db e.user_id) e.amount (omega (arith, nonneg, bounded)) fits
                (good_amount e.user_id e.amount good) covered in
            let kept = law.debit_apart e.user_id e.amount a.db in
            rw (debit_covered e.user_id e.amount w good covered) (
              handled refl (
                balance_written _ a _ e.user_id (held a.db e.user_id -ℤ e.amount)
                  (deliveries (debited e m.now))
                  (λ u.
                    law.ledger.debit_lem e.user_id e.amount a.db u
                      (good_amount e.user_id e.amount good) covered
                    ∙ ap (λ b. written (held a.db) e.user_id b u) exact)
                  kept refl
                  (
                    taken _ (kept e.payment_id ∙ found),
                    (idle _ audits, (idle _ shows, (idle _ counts, (idle _ logs_debit, tt)))),
                  )
                  (covered_sub (held a.db e.user_id) e.amount (good_amount e.user_id e.amount good)
                    covered nonneg).0
                  (λ u.
                    rw
                      (
                        kept e.payment_id,
                        named_amount (stored a.db) e.payment_id e.user_id u e.amount found user
                            amount,
                      )
                      (omega
                        (arith, taken_sum (held a.db) e.user_id u e.amount good covered nonneg)))
                  (λ i. omega arith)))
      ]

  pub handle_refunding :
      (m : Moment) (e : WalletRefundRequested) (a : App c D G) {p : Payment}
      → stored a.db e.payment_id ≡ some p
      → is_bad e.user_id e.amount ≡ false
      → e.user_id ≡ p.user_id
      → e.amount ≡ p.amount
      → neg_part (seen e.user_id) ≡ 0
      → pos_part (seen e.user_id) + pos_part e.amount < 2 ^ 63
      → Ends parts held stored seen
          (record { subscriber = Sys.wallet_refund_requested; evt = wallet_refund_requested e })
          a
          (handle (late seen parts) m Sys.wallet_refund_requested (wallet_refund_requested e) a)
  unfolding handle handle_wallet_refund_requested deliveries partition_key
  handle_refunding m e a found good user amount nonneg room =
      let added =
        positive_add (seen e.user_id) e.amount (good_amount e.user_id e.amount good) nonneg in
      let exact = add64-eq (seen e.user_id) e.amount (omega (arith, added.0, added.1, room)) in
      let kept = law.set_apart e.user_id (add64 (seen e.user_id) e.amount) a.db in
      rw (refund_taken e.user_id e.amount (record { repo = a.db; metrics = a.metrics }) good) (
        handled refl (
          balance_written _ a _ e.user_id (seen e.user_id +ℤ e.amount) _
            (λ u.
              law.ledger.set_lem e.user_id (add64 (seen e.user_id) e.amount) a.db u
              ∙ ap (λ b. written (held a.db) e.user_id b u) exact)
            kept refl (idle _ audits, (idle _ shows, (idle _ counts, (idle _ logs_refund, tt))))
            added.0
            (λ u.
              rw (named_amount (stored a.db) e.payment_id e.user_id u e.amount found user amount)
                (omega (arith, rewritten_sum (held a.db) seen e.user_id u e.amount good nonneg)))
            (λ i. omega arith)))
