-- ===== src/Web/Creation.antt =====
-- What a client that asks for a payment is told, and what has then been done
-- (cmd/web/handlers/payment.go), over any payment repository that keeps its contract.
use challenge_senior.Prelude.{
  ℕ, String, true, false, ◌≡◌, ◌⊎◌, inl, inr, Option, none, some, Bool-cases,
}
use challenge_senior.Kit.Errors.{
  Error, sentinel, join, invalid, invalid_payment, is_invalid, is, message,
}
use challenge_senior.Kit.Action.{Result, ok}
use challenge_senior.Kit.Context.{Context}
use challenge_senior.Payment.{Payment, to_create_request, initialize, validate_create_request}
use challenge_senior.Payment as Pay
use challenge_senior.Payment.Laws.{IsStore, saved}
use challenge_senior.Payment.Service.{new_payment, is_bad_request}
use challenge_senior.Health.{Health, check}
use challenge_senior.Web.{Response, http_error}
use challenge_senior.Web.Payment.{
  CreatePaymentReq, Parts, State, Times, accepted, unavailable, refused, announce_created,
  create_payment,
}

abbrev pub request : CreatePaymentReq → Pay.CreateRequest
request req = record {
  payment_id = req.payment_id;
  user_id = req.user_id;
  amount = req.amount;
  service = req.service;
}

abbrev pub bad_payment : Error
bad_payment = join (sentinel invalid) (sentinel invalid_payment)

module _ {S T : Type 0} (parts : Parts S T) (stored : S → String → Option Payment)
    (laws : IsStore parts.service.repository stored) where
  -- The answer to a request while the service is healthy, seen at the payment `j`: 400 for a bad
  -- request, and nothing changes; else 202, with the payment stored and its two events told.
  abbrev pub Answered :
      ℕ → CreatePaymentReq → Pay.State S T → String → Result Response × Pay.State S T → Type 0
  Answered now req s j o =
      ((is_bad_request (request req) ≡ true) × (o ≡ (ok (http_error (message bad_payment) 400), s)))
      ⊎ ((is_bad_request (request req) ≡ false)
          × (o.0 ≡ ok (accepted (new_payment (request req))))
          × (stored o.1.repo j ≡ saved (stored s.repo) (new_payment (request req)) j)
          × (o.1.outside ≡ announce_created parts (new_payment (request req)) now s.outside)
          × (o.1.metrics ≡ s.metrics))

  pub answered :
      (now : ℕ) (req : CreatePaymentReq) (s : Pay.State S T) (j : String)
      → Answered now req s j (create_payment parts now req s)
  unfolding create_payment to_create_request initialize validate_create_request refused is_invalid
      is
  answered now req s j = elim (Bool-cases (is_bad_request (request req))) [
    | inl bad ↦ inl (bad, rw bad)
    | inr good ↦
        let p = new_payment (request req) in
        inr (
          good,
          rw (good, laws.save_outcome p s.repo),
          rw (good, laws.save_outcome p s.repo) (laws.save_lem p s.repo j),
          rw (good, laws.save_outcome p s.repo),
          rw (good, laws.save_outcome p s.repo),
        )
  ]

  -- The request goes on: there is no health to check, or its check says that it is up. The handler's
  -- state keeps what the check leaves.
  abbrev pub Allowed : Times → Context → State S T → State S T → Type 0
  Allowed t ctx s s' =
      ((s.health ≡ none) × (s'.health ≡ none))
      ⊎ ((h : Health) × (s.health ≡ some h)
          × ((check t.asked t.begun t.done ctx h).0.ok ≡ true)
          × (s'.health ≡ some (check t.asked t.begun t.done ctx h).1))

  -- What a request that has been decoded comes to: 503 where the check of the health says so, and
  -- its answer only where it is allowed.
  abbrev pub Checked :
      Times → Context → CreatePaymentReq → State S T → String → Result Response × State S T → Type 0
  Checked t ctx req s j o =
      ((h : Health) × (s.health ≡ some h)
        × ((check t.asked t.begun t.done ctx h).0.ok ≡ false)
        × (o ≡ (
          ok (unavailable (check t.asked t.begun t.done ctx h).0.checks),
          record s { health = some (check t.asked t.begun t.done ctx h).1 },
        )))
      ⊎ (Allowed t ctx s o.1 × Answered t.created req s.payments j (o.0, o.1.payments))
