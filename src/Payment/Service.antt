-- ===== src/Payment/Service.antt =====
-- The payment service (internal/payment/service.go) over any repository that keeps its contract.
use challenge_senior.Prelude.{
  ℕ, String, Bool, true, false, ◌||◌, ◌≡◌, refl, ◌⊎◌, inl, inr, Option, none, some, ◌==◌,
  Bool-cases, Option-cases,
}
use challenge_senior.Prelude.Int.{pos, leb_ℤ}
use challenge_senior.Kit.Errors.{sentinel, join, invalid, invalid_payment, not_found}
use challenge_senior.Kit.Action.{ok, err, Action}
use challenge_senior.Kit.Observability.{Metrics, bump, payments_succeeded_add, payments_failed_add}
use challenge_senior.Events.{
  Event, payment_pending, payment_rejected, payment_succeeded, payment_failed,
}
use challenge_senior.Payment.{
  Payment, CreateRequest, Parts, State, append_to, publish_to, status_initialized, status_pending,
  status_rejected, status_succeeded, status_failed, initialize, mark_pending, mark_rejected,
  mark_succeeded, mark_failed,
}
use challenge_senior.Payment.Laws.{IsStore, saved}

-- The four transitions of the service, as values.
pub data Mark : Type 0 where
  pending : Mark
  rejected : String → Mark
  succeeded : String → Mark
  failed : String → Mark

module _ {S T : Type 0} (parts : Parts S T) where
  unfoldable pub perform : ℕ → String → Mark → Action (State S T) (Unit {0})
  perform now i pending = mark_pending parts now i
  perform now i (rejected reason) = mark_rejected parts now i reason
  perform now i (succeeded gateway) = mark_succeeded parts now i gateway
  perform now i (failed reason) = mark_failed parts now i reason

-- What each transition is to do: to the payment, as an event and to the counters.
abbrev pub marked : Mark → Payment → Payment
marked pending p = record p { status = status_pending }
marked (rejected reason) p = record p { status = status_rejected; reason = reason }
marked (succeeded gateway) p = record p { status = status_succeeded; gateway_id = gateway }
marked (failed reason) p = record p { status = status_failed; reason = reason }

abbrev pub mark_event : ℕ → String → String → Mark → Event
mark_event now i u pending = payment_pending (record { payment_id = i; user_id = u; at = now })
mark_event now i u (rejected reason) =
    payment_rejected (record { payment_id = i; user_id = u; reason = reason; at = now })
mark_event now i u (succeeded gateway) =
    payment_succeeded (record { payment_id = i; user_id = u; gateway_id = gateway; at = now })
mark_event now i u (failed reason) =
    payment_failed (record { payment_id = i; user_id = u; reason = reason; at = now })

abbrev pub mark_metrics : Mark → Option Metrics → Option Metrics
mark_metrics (succeeded gateway) m = bump (payments_succeeded_add (pos 1)) m
mark_metrics (failed reason) m = bump (payments_failed_add (pos 1)) m
mark_metrics _ m = m

module _ {S T : Type 0} (parts : Parts S T) where
  -- The state after a transition of the stored payment `p`.
  abbrev pub after : ℕ → String → Mark → Payment → State S T → State S T
  after now i m p s = record {
    repo = (parts.repository.save (marked m p) s.repo).1;
    outside =
        publish_to parts.publish (mark_event now i p.user_id m)
          (append_to parts.append i (mark_event now i p.user_id m) s.outside);
    metrics = mark_metrics m s.metrics;
  }

-- The payment as it was created.
abbrev pub new_payment : CreateRequest → Payment
new_payment req = record {
  id = req.payment_id;
  user_id = req.user_id;
  amount = req.amount;
  service = req.service;
  status = status_initialized;
  reason = "";
  gateway_id = "";
}

abbrev pub is_bad_request : CreateRequest → Bool
is_bad_request r =
    r.payment_id == "" || r.user_id == "" || leb_ℤ r.amount (pos 0) || r.service == ""

module _ {S T : Type 0} (parts : Parts S T) (stored : S → String → Option Payment)
    (laws : IsStore parts.repository stored) where
  -- The call returned nothing but success, saved `p` and left the outside and the counters so.
  abbrev pub Saved : Payment → T → Option Metrics → State S T → String → State S T → Type 0
  Saved p t m s j s' =
      (stored s'.repo j ≡ saved (stored s.repo) p j) × (s'.outside ≡ t) × (s'.metrics ≡ m)

  -- Over any payment repository that is a map from ids to payments, a request with an empty
  -- field or an amount that is not positive is refused and changes nothing; any other is stored
  -- as an initialized payment, with no event and no count.
  pub initialize_lem :
      (req : CreateRequest) (s : State S T) (j : String)
      → ((is_bad_request req ≡ true)
          × (initialize parts req s
              ≡ (err (join (sentinel invalid) (sentinel invalid_payment)), s)))
        ⊎ ((is_bad_request req ≡ false)
            × ((initialize parts req s).0 ≡ ok (new_payment req))
            × Saved (new_payment req) s.outside s.metrics s j (initialize parts req s).1)
  unfolding initialize
  initialize_lem req s j = elim (Bool-cases (is_bad_request req)) [
    | inl bad ↦ inl (bad, rw bad)
    | inr good ↦ inr (
      good,
      rw (good, laws.save_outcome (new_payment req) s.repo),
      rw (good, laws.save_outcome (new_payment req) s.repo)
          (laws.save_lem (new_payment req) s.repo j, refl, refl),
    )
  ]

  pub perform_stored :
      (now : ℕ) (i : String) (m : Mark) (s : State S T) {p : Payment}
      → stored s.repo i ≡ some p
      → perform parts now i m s ≡ (ok tt, after parts now i m p s)
  unfolding perform mark_pending mark_rejected mark_succeeded mark_failed
  perform_stored now i pending s {p} e =
      rw (laws.get_lem i s.repo, e, laws.save_outcome (marked pending p) s.repo)
  perform_stored now i (rejected reason) s {p} e =
      rw (laws.get_lem i s.repo, e, laws.save_outcome (marked (rejected reason) p) s.repo)
  perform_stored now i (succeeded gateway) s {p} e =
      rw (laws.get_lem i s.repo, e, laws.save_outcome (marked (succeeded gateway) p) s.repo)
  perform_stored now i (failed reason) s {p} e =
      rw (laws.get_lem i s.repo, e, laws.save_outcome (marked (failed reason) p) s.repo)

  pub perform_missing :
      (now : ℕ) (i : String) (m : Mark) (s : State S T)
      → stored s.repo i ≡ none
      → perform parts now i m s ≡ (err (sentinel not_found), s)
  unfolding perform mark_pending mark_rejected mark_succeeded mark_failed
  perform_missing now i pending s e = rw (laws.get_lem i s.repo, e)
  perform_missing now i (rejected reason) s e = rw (laws.get_lem i s.repo, e)
  perform_missing now i (succeeded gateway) s e = rw (laws.get_lem i s.repo, e)
  perform_missing now i (failed reason) s e = rw (laws.get_lem i s.repo, e)

  -- Over any payment repository that is a map from ids to payments, each of the four
  -- transitions fails and changes nothing where the payment is not stored; where it is, the
  -- transition succeeds: it saves the payment in its new status and touches no other, tells the
  -- store and then the bus of its event, and counts.
  pub perform_lem :
      (now : ℕ) (i : String) (m : Mark) (s : State S T) (j : String)
      → ((stored s.repo i ≡ none) × (perform parts now i m s ≡ (err (sentinel not_found), s)))
        ⊎ ((p : Payment) × (stored s.repo i ≡ some p)
            × ((perform parts now i m s).0 ≡ ok tt)
            × Saved
                (marked m p)
                (publish_to parts.publish
                  (mark_event now i p.user_id m)
                  (append_to parts.append i (mark_event now i p.user_id m) s.outside))
                (mark_metrics m s.metrics)
                s
                j
                (perform parts now i m s).1)
  perform_lem now i m s j = elim (Option-cases (stored s.repo i)) [
    | inl missing ↦ inl (missing, perform_missing now i m s missing)
    | inr (p, e) ↦ inr (
      p,
      e,
      rw (perform_stored now i m s e),
      rw (perform_stored now i m s e) (laws.save_lem (marked m p) s.repo j, refl, refl),
    )
  ]
