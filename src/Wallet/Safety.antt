-- ===== src/Wallet/Safety.antt =====
-- What the clients of the wallet service (internal/wallet/service.go) rely on, over any repository:
-- overdrafts, debits that fail, refunds of debits, and overflow.
use challenge_senior.Prelude.{
  String, true, false, ◌≡◌, ◌∙◌, sym, ap, inl, inr, ◌==◌, Bool-cases, arith, eq_iff, eq_refl, ◌^◌,
}
use challenge_senior.Prelude.Int.{ℤ, pos, ◌≤ℤ◌, ◌<ℤ◌, ◌-ℤ◌, ◌+ℤ◌, int_laws}
use challenge_senior.Prelude.Int64.{IsInt64, add64, add64_overflow, add64-eq}
use challenge_senior.Kit.Errors.{Error, is_internal}
use challenge_senior.Kit.Action.{ok, err}
use challenge_senior.Wallet.{Repository, Wallet, credit, debit, refund}
use challenge_senior.Wallet.Laws.{IsLedger, written}
use challenge_senior.Wallet.Service.{
  is_bad, Wrote-held, Wrote-internal, credit_lem, debit_lem, refund_lem,
}

written_nonneg :
    (held : String → ℤ) (u : String) (a : ℤ) (j : String)
    → pos 0 ≤ℤ a
    → pos 0 ≤ℤ held j
    → pos 0 ≤ℤ written held u a j
written_nonneg held u a j ha hj = ground arith

-- Writing back what the user held restores every balance.
written_back :
    (held held' : String → ℤ) (u : String) (a : ℤ) (j : String)
    → held' j ≡ written held u a j
    → written held' u (held u) j ≡ held j
written_back held held' u a j h = elim (Bool-cases (u == j)) [
  | inl same ↦ rw (same, (eq_iff u j).0 same)
  | inr other ↦ rw other (rw other at h)
]

pub written_self : (held : String → ℤ) (u : String) (a : ℤ) → written held u a u ≡ a
written_self held u a = rw eq_refl

-- Taking an amount and adding it again gives the same balance.
taken_back : (b a : ℤ) → IsInt64 b → add64 (b -ℤ a) a ≡ b
taken_back b a h =
    let same : b -ℤ a +ℤ a ≡ b = omega int_laws in add64-eq (b -ℤ a) a (rw same h) ∙ same

module _ {S : Type 0} (r : Repository S) (held : S → String → ℤ) (laws : IsLedger r held) where
  -- Over any wallet repository that keeps its contract, and where the balance and the amount
  -- are int64s, a user who owes nothing before a debit, of theirs or of another, owes nothing
  -- after it, whatever the debit returns.
  pub debit_nonneg :
      (u : String) (a : ℤ) (w : Wallet S) (j : String)
      → IsInt64 (held w.repo u)
      → IsInt64 a
      → pos 0 ≤ℤ held w.repo j
      → pos 0 ≤ℤ held (debit r u a w).1.repo j
  debit_nonneg u a w j hi ai hj = elim (debit_lem r held laws u a w j hi ai) [
    | inl (bad, e) ↦ rw e hj
    | inr (inl (good, short, e)) ↦ rw e hj
    | inr (inr (good, covered, wrote)) ↦
        rw (Wrote-held held _ _ _ _ _ _ wrote)
          (written_nonneg (held w.repo) u (held w.repo u -ℤ a) j (omega int_laws) hj)
  ]

  -- A debit that fails with anything but an internal error has changed nothing.
  pub debit_error_keeps :
      (u : String) (a : ℤ) (w : Wallet S) {e : Error}
      → IsInt64 (held w.repo u)
      → IsInt64 a
      → (debit r u a w).0 ≡ err e
      → is_internal e ≡ false
      → (debit r u a w).1 ≡ w
  debit_error_keeps u a w hi ai failed external = elim (debit_lem r held laws u a w u hi ai) [
    | inl (bad, e) ↦ rw e
    | inr (inl (good, short, e)) ↦ rw e
    | inr (inr (good, covered, wrote)) ↦
        let internal = Wrote-internal held _ _ _ _ _ _ wrote failed in cc
  ]

  -- Over any wallet repository that keeps its contract, and where the balance and the amount
  -- are int64s, a debit that reports an internal error has taken the amount all the same.
  pub debit_unsaved :
      (u : String) (a : ℤ) (w : Wallet S) {e : Error}
      → IsInt64 (held w.repo u)
      → IsInt64 a
      → (debit r u a w).0 ≡ err e
      → is_internal e ≡ true
      → held (debit r u a w).1.repo u ≡ held w.repo u -ℤ a
  unfolding is_internal
  debit_unsaved u a w hi ai failed internal = elim (debit_lem r held laws u a w u hi ai) [
    | inl (bad, e) ↦ absurd (cc (sym failed ∙ ap (λ p. p.0) e, internal))
    | inr (inl (good, short, e)) ↦ absurd (cc (sym failed ∙ ap (λ p. p.0) e, internal))
    | inr (inr (good, covered, wrote)) ↦
        Wrote-held held _ _ _ _ _ _ wrote ∙ written_self (held w.repo) u (held w.repo u -ℤ a)
  ]

  refund_restores :
      (u : String) (a : ℤ) (w w' : Wallet S) (j : String)
      → IsInt64 (held w.repo u)
      → is_bad u a ≡ false
      → held w'.repo u ≡ held w.repo u -ℤ a
      → held w'.repo j ≡ written (held w.repo) u (held w.repo u -ℤ a) j
      → held (refund r u a w').1.repo j ≡ held w.repo j
  refund_restores u a w w' j hi good eu ej = elim (refund_lem r held laws u a w' j) [
    | inl (bad, e) ↦ absurd (cc (bad, good))
    | inr (_, wrote) ↦
        let back : add64 (held w'.repo u) a ≡ held w.repo u =
          rw (eu) (taken_back (held w.repo u) a hi) in
        Wrote-held held _ _ _ _ _ _ wrote
        ∙ rw back (written_back (held w.repo) (held w'.repo) u (held w.repo u -ℤ a) j ej)
  ]

  -- Over any wallet repository that keeps its contract, and where the balance and the amount
  -- are int64s, a refund of the same amount after a debit that succeeded gives every user what
  -- they held before, whatever the refund returns.
  pub refund-debit :
      (u : String) (a : ℤ) (w : Wallet S) (j : String)
      → IsInt64 (held w.repo u)
      → IsInt64 a
      → (debit r u a w).0 ≡ ok tt
      → held (refund r u a (debit r u a w).1).1.repo j ≡ held w.repo j
  refund-debit u a w j hi ai done = elim (debit_lem r held laws u a w u hi ai) [
    | inl (bad, e) ↦ absurd (cc (sym done ∙ ap (λ p. p.0) e))
    | inr (inl (good, short, e)) ↦ absurd (cc (sym done ∙ ap (λ p. p.0) e))
    | inr (inr (good, covered, wrote)) ↦ elim (debit_lem r held laws u a w j hi ai) [
      | inl (bad, e) ↦ absurd (cc (bad, good))
      | inr (inl (_, short, e)) ↦ absurd (omega (arith, short, covered))
      | inr (inr (_, _, wrote')) ↦
          refund_restores u a w (debit r u a w).1 j hi good
            (Wrote-held held _ _ _ _ _ _ wrote ∙ written_self (held w.repo) u (held w.repo u -ℤ a))
            (Wrote-held held _ _ _ _ _ _ wrote')
    ]
  ]

  -- Over any wallet repository that keeps its contract, a credit that is not refused and passes
  -- the largest int64 makes the balance negative.
  pub credit_overflow :
      (u : String) (a : ℤ) (w : Wallet S)
      → IsInt64 (held w.repo u)
      → IsInt64 a
      → is_bad u a ≡ false
      → pos (2 ^ 63) ≤ℤ held w.repo u +ℤ a
      → held (credit r u a w).1.repo u <ℤ pos 0
  credit_overflow u a w hi ai good past = elim (credit_lem r held laws u a w u) [
    | inl (bad, e) ↦ absurd (cc (bad, good))
    | inr (_, wrote) ↦
        rw
          (
            Wrote-held held _ _ _ _ _ _ wrote,
            written_self (held w.repo) u (add64 (held w.repo u) a),
          )
          (add64_overflow (held w.repo u) a hi ai past)
  ]
