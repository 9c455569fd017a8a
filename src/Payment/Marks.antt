-- ===== src/Payment/Marks.antt =====
-- Sequences of transitions of one payment, as the workflow's handlers make them.
use challenge_senior.Prelude.{
  ℕ, String, false, ◌≡◌, refl, ◌∙◌, ap, Option, some, List, [], ◌∷◌, ◌==◌, arith, eq_refl,
}
use challenge_senior.Payment.{
  Payment, Status, Parts, State, status_pending, status_rejected, status_succeeded, status_failed,
}
use challenge_senior.Payment.Laws.{IsStore, saved}
use challenge_senior.Payment.Service.{
  Mark, pending, rejected, succeeded, failed, perform, marked, perform_stored,
}

-- The calls are made one after the other, each with its reading of the clock; a failed call
-- changes nothing and the next one is made all the same.
module _ {S T : Type 0} (parts : Parts S T) where
  unfoldable pub perform_all : String → List (ℕ × Mark) → State S T → State S T
  perform_all i [] s = s
  perform_all i ((now, m) ∷ ms) s = perform_all i ms (perform parts now i m s).1

-- The status that a transition gives.
abbrev pub mark_status : Mark → Status
mark_status pending = status_pending
mark_status (rejected reason) = status_rejected
mark_status (succeeded gateway) = status_succeeded
mark_status (failed reason) = status_failed

-- The status after the last transition.
abbrev pub last_status : Status → List (ℕ × Mark) → Status
last_status st [] = st
last_status st ((now, m) ∷ ms) = last_status (mark_status m) ms

-- `q` is the payment `p` for the same service, user and amount.
pub record SamePayment (p q : Payment) : Type 0 where
  pub same_id : q.id ≡ p.id
  pub same_user : q.user_id ≡ p.user_id
  pub same_amount : q.amount ≡ p.amount
  pub same_service : q.service ≡ p.service

pub marked-SamePayment : (m : Mark) (p : Payment) → SamePayment p (marked m p)
marked-SamePayment pending p = ground arith
marked-SamePayment (rejected reason) p = ground arith
marked-SamePayment (succeeded gateway) p = ground arith
marked-SamePayment (failed reason) p = ground arith

SamePayment-trans : {p q r : Payment} → SamePayment p q → SamePayment q r → SamePayment p r
SamePayment-trans h k = record {
  same_id = k.same_id ∙ h.same_id;
  same_user = k.same_user ∙ h.same_user;
  same_amount = k.same_amount ∙ h.same_amount;
  same_service = k.same_service ∙ h.same_service;
}

marked-status : (m : Mark) (p : Payment) → (marked m p).status ≡ mark_status m
marked-status pending p = refl
marked-status (rejected reason) p = refl
marked-status (succeeded gateway) p = refl
marked-status (failed reason) p = refl

marked_twice : (m : Mark) (p : Payment) → marked m (marked m p) ≡ marked m p
marked_twice pending p = refl
marked_twice (rejected reason) p = refl
marked_twice (succeeded gateway) p = refl
marked_twice (failed reason) p = refl

pub saved_self :
    (stored : String → Option Payment) (p : Payment) {i : String}
    → p.id ≡ i
    → saved stored p i ≡ some p
saved_self stored p e = rw (← e, eq_refl)

saved_twice :
    (stored : String → Option Payment) (p : Payment) (j : String)
    → saved (saved stored p) p j ≡ saved stored p j
saved_twice stored p j = ground arith

module _ {S T : Type 0} (parts : Parts S T) (stored : S → String → Option Payment)
    (laws : IsStore parts.repository stored) where
  -- One transition of a stored payment, seen under its own id.
  pub stored-perform :
      (now : ℕ) (i : String) (m : Mark) (s : State S T) {p : Payment}
      → stored s.repo i ≡ some p
      → p.id ≡ i
      → stored (perform parts now i m s).1.repo i ≡ some (marked m p)
  stored-perform now i m s {p} e k =
      rw (perform_stored parts stored laws now i m s e, laws.save_lem (marked m p) s.repo i)
        (saved_self (stored s.repo) (marked m p) ((marked-SamePayment m p).same_id ∙ k))

  -- Over any payment repository that is a map from ids to payments, and whatever transitions
  -- are made of a payment that is stored under its id, it stays stored with the id, user,
  -- amount and service that it had, in the status of the last transition.
  pub perform_all-SamePayment :
      (i : String) (ms : List (ℕ × Mark)) (s : State S T) {p : Payment}
      → stored s.repo i ≡ some p
      → p.id ≡ i
      → (q : Payment) × (stored (perform_all parts i ms s).repo i ≡ some q)
        × SamePayment p q
        × (q.status ≡ last_status p.status ms)
  unfolding perform_all
  perform_all-SamePayment i [] s {p} e k = (p, e, ground arith, refl)
  perform_all-SamePayment i ((now, m) ∷ ms) s {p} e k =
      let (q, eq, same, st) =
        perform_all-SamePayment i ms (perform parts now i m s).1 (stored-perform now i m s e k)
          ((marked-SamePayment m p).same_id ∙ k) in
      (
        q,
        eq,
        SamePayment-trans (marked-SamePayment m p) same,
        st ∙ ap (λ t. last_status t ms) (marked-status m p),
      )

  -- Over any payment repository that is a map from ids to payments, no sequence of transitions
  -- of a payment that is stored under its id touches another.
  pub perform_all_others :
      (i : String) (ms : List (ℕ × Mark)) (s : State S T) (j : String) {p : Payment}
      → stored s.repo i ≡ some p
      → p.id ≡ i
      → (i == j) ≡ false
      → stored (perform_all parts i ms s).repo j ≡ stored s.repo j
  unfolding perform_all
  perform_all_others i [] s j e k ne = refl
  perform_all_others i ((now, m) ∷ ms) s j {p} e k ne =
      perform_all_others i ms (perform parts now i m s).1 j (stored-perform now i m s e k)
        ((marked-SamePayment m p).same_id ∙ k) ne
      ∙ rw (
        perform_stored parts stored laws now i m s e,
        laws.save_lem (marked m p) s.repo j,
        (marked-SamePayment m p).same_id,
        k,
        ne,
      )

  -- Over any payment repository that is a map from ids to payments, a transition of a payment
  -- that is stored under its id leaves the payments, when it is made twice, as when it is made
  -- once.
  pub perform_twice :
      (now now' : ℕ) (i : String) (m : Mark) (s : State S T) (j : String) {p : Payment}
      → stored s.repo i ≡ some p
      → p.id ≡ i
      → stored (perform parts now' i m (perform parts now i m s).1).1.repo j
        ≡ stored (perform parts now i m s).1.repo j
  perform_twice now now' i m s j {p} e k =
      let again = stored-perform now i m s e k in
      rw
        (
          perform_stored parts stored laws now' i m (perform parts now i m s).1 again,
          laws.save_lem (marked m (marked m p)) (perform parts now i m s).1.repo j,
          marked_twice m p,
          perform_stored parts stored laws now i m s e,
          laws.save_lem (marked m p) s.repo j,
        )
        (saved_twice (stored s.repo) (marked m p) j)
