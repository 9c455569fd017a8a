-- ===== src/Wallet/Service.antt =====
-- The wallet service (internal/wallet/service.go) over any repository that keeps its contract.
use challenge_senior.Prelude.{
  String, Bool, true, false, ◌||◌, ◌≡◌, refl, ◌⊎◌, inl, inr, Option, ◌==◌, Bool-cases, arith,
}
use challenge_senior.Prelude.Int.{ℤ, pos, leb_ℤ, ◌≤ℤ◌, ◌<ℤ◌, ◌-ℤ◌}
use challenge_senior.Prelude.Int64.{IsInt64, add64, sub64, sub64_covered}
use challenge_senior.Kit.Errors.{
  Error, sentinel, join, is_internal, invalid, invalid_request, insufficient_funds,
}
use challenge_senior.Kit.Action.{Result, ok, err, panic, continue}
use challenge_senior.Kit.Observability.{Metrics, bump, wallet_debits_add, wallet_refunds_add}
use challenge_senior.Wallet.{
  Repository, Wallet, add_metric, credit, debit, refund, validate_credit_request, to_credit_request,
}
use challenge_senior.Wallet.Laws.{IsLedger, IsWritten, written}

-- The service refuses an empty user and an amount that is not positive.
abbrev pub is_bad : String → ℤ → Bool
is_bad u a = u == "" || leb_ℤ a (pos 0)

abbrev pub bad_request : Error
bad_request = join (sentinel invalid) (sentinel invalid_request)

-- User `u` holds `a` afterwards and the others what they held, seen at user `j`. The counters
-- are `m` after a success; an error is an internal one, and leaves the counters alone.
abbrev pub Wrote :
    {S : Type 0}
    → (S → String → ℤ)
    → String
    → ℤ
    → Option Metrics
    → Wallet S
    → String
    → Result (Unit {0}) × Wallet S
    → Type 0
Wrote held u a m w j (ok _, w') = (held w'.repo j ≡ written (held w.repo) u a j) × (w'.metrics ≡ m)
Wrote held u a m w j (err e, w') =
    (held w'.repo j ≡ written (held w.repo) u a j)
    × (w'.metrics ≡ w.metrics)
    × (is_internal e ≡ true)
Wrote held u a m w j (panic, w') = ⊥

-- Whatever the outcome, the balance has been written.
pub Wrote-held :
    {S : Type 0} (held : S → String → ℤ) (u : String) (a : ℤ) (m : Option Metrics) (w : Wallet S)
    (j : String) (o : Result (Unit {0}) × Wallet S)
    → Wrote held u a m w j o
    → held o.1.repo j ≡ written (held w.repo) u a j
Wrote-held held u a m w j (ok _, w') h = h.0
Wrote-held held u a m w j (err e, w') h = h.0
Wrote-held held u a m w j (panic, w') h = absurd h

pub Wrote-internal :
    {S : Type 0} (held : S → String → ℤ) (u : String) (a : ℤ) (m : Option Metrics) (w : Wallet S)
    (j : String) (o : Result (Unit {0}) × Wallet S) {e : Error}
    → Wrote held u a m w j o
    → o.0 ≡ err e
    → is_internal e ≡ true
Wrote-internal held u a m w j (ok _, w') h eq = cc
Wrote-internal held u a m w j (err e, w') h eq = ground arith
Wrote-internal held u a m w j (panic, w') h eq = absurd h

pub good_amount : (u : String) (a : ℤ) → is_bad u a ≡ false → pos 0 <ℤ a
good_amount u a h = ground arith

compare_funds : (a b : ℤ) → (a <ℤ b) ⊎ (b ≤ℤ a)
compare_funds a b = omega arith

module _ {S : Type 0} (r : Repository S) (held : S → String → ℤ) (laws : IsLedger r held) where
  -- What follows a write: nothing, or one more on a counter.
  Wrote-pure :
      (u : String) (a : ℤ) (w : Wallet S) (j : String) (o : Result (Unit {0})) (s : S)
      → IsWritten o
      → held s j ≡ written (held w.repo) u a j
      → Wrote held u a w.metrics w j (o, record w { repo = s })
  Wrote-pure u a w j (ok _) s h e = (e, refl)
  Wrote-pure u a w j (err x) s h e = (e, refl, h)
  Wrote-pure u a w j panic s h e = absurd h

  Wrote-add_metric :
      (f : Metrics → Metrics) (u : String) (a : ℤ) (w : Wallet S) (j : String)
      (o : Result (Unit {0})) (s : S)
      → IsWritten o
      → held s j ≡ written (held w.repo) u a j
      → Wrote held u a
          (bump f w.metrics)
          w
          j
          (continue o (record w { repo = s }) (λ _. add_metric f))
  Wrote-add_metric f u a w j (ok _) s h e = (e, refl)
  Wrote-add_metric f u a w j (err x) s h e = (e, refl, h)
  Wrote-add_metric f u a w j panic s h e = absurd h

  -- Over any wallet repository that keeps its contract, a credit is refused for its arguments
  -- and changes nothing, or that user's balance alone grows by the amount, wrapped to 64 bits,
  -- and any error is an internal one; no counter changes.
  pub credit_lem :
      (u : String) (a : ℤ) (w : Wallet S) (j : String)
      → ((is_bad u a ≡ true) × (credit r u a w ≡ (err bad_request, w)))
        ⊎ ((is_bad u a ≡ false)
            × Wrote held u (add64 (held w.repo u) a) w.metrics w j (credit r u a w))
  unfolding credit validate_credit_request to_credit_request
  credit_lem u a w j = elim (Bool-cases (is_bad u a)) [
    | inl bad ↦ inl (bad, rw bad)
    | inr good ↦ inr (
      good,
      rw (good, laws.get_lem u w.repo)
          (Wrote-pure u (add64 (held w.repo u) a) w j
            (r.set_balance u (add64 (held w.repo u) a) w.repo).0
            (r.set_balance u (add64 (held w.repo u) a) w.repo).1
            (laws.set_outcome u (add64 (held w.repo u) a) w.repo)
            (laws.set_lem u (add64 (held w.repo u) a) w.repo j)),
    )
  ]

  -- A refund does what a credit does, and counts a success.
  pub refund_lem :
      (u : String) (a : ℤ) (w : Wallet S) (j : String)
      → ((is_bad u a ≡ true) × (refund r u a w ≡ (err bad_request, w)))
        ⊎ ((is_bad u a ≡ false)
            × Wrote held u
                (add64 (held w.repo u) a)
                (bump (wallet_refunds_add (pos 1)) w.metrics)
                w
                j
                (refund r u a w))
  unfolding refund
  refund_lem u a w j = elim (Bool-cases (is_bad u a)) [
    | inl bad ↦ inl (bad, rw bad)
    | inr good ↦ inr (
      good,
      rw (good, laws.get_lem u w.repo)
          (Wrote-add_metric (wallet_refunds_add (pos 1)) u (add64 (held w.repo u) a) w j
            (r.set_balance u (add64 (held w.repo u) a) w.repo).0
            (r.set_balance u (add64 (held w.repo u) a) w.repo).1
            (laws.set_outcome u (add64 (held w.repo u) a) w.repo)
            (laws.set_lem u (add64 (held w.repo u) a) w.repo j)),
    )
  ]

  -- Over any wallet repository that keeps its contract, and where the balance and the amount
  -- are int64s, a debit is refused for its arguments or for lack of funds and changes nothing,
  -- or that user's balance alone falls by exactly the amount; a success is counted, and any
  -- other outcome is an internal error and not counted.
  pub debit_lem :
      (u : String) (a : ℤ) (w : Wallet S) (j : String)
      → IsInt64 (held w.repo u)
      → IsInt64 a
      → ((is_bad u a ≡ true) × (debit r u a w ≡ (err bad_request, w)))
        ⊎ ((is_bad u a ≡ false)
            × (held w.repo u <ℤ a)
            × (debit r u a w ≡ (err (sentinel insufficient_funds), w)))
        ⊎ ((is_bad u a ≡ false)
            × (a ≤ℤ held w.repo u)
            × Wrote held u
                (held w.repo u -ℤ a)
                (bump (wallet_debits_add (pos 1)) w.metrics)
                w
                j
                (debit r u a w))
  unfolding debit
  debit_lem u a w j hi ai = elim (Bool-cases (is_bad u a)) [
    | inl bad ↦ inl (bad, rw bad)
    | inr good ↦
        let positive = good_amount u a good in
        elim (compare_funds (held w.repo u) a) [
          | inl short ↦
              inr (inl (good, short, rw (good, laws.debit_short u a w.repo positive short)))
          | inr covered ↦ inr (
              inr (
                good,
                covered,
                rw (good, ← sub64_covered (held w.repo u) a hi ai positive covered)
                    (Wrote-add_metric (wallet_debits_add (pos 1)) u (sub64 (held w.repo u) a) w j
                      (r.debit_if_sufficient_funds u a w.repo).0
                      (r.debit_if_sufficient_funds u a w.repo).1
                      (laws.debit_outcome u a w.repo positive covered)
                      (laws.debit_lem u a w.repo j positive covered)),
              ))
        ]
  ]
