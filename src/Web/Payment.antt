-- ===== src/Web/Payment.antt =====
-- cmd/web/handlers/payment.go: the requests to create and to show a payment. The store and the bus
-- are what they do to the world outside, since the handler drops their results; `rm` is the read
-- model. A response is what the client gets.
use challenge_senior.Prelude.{ℕ, String, inl, inr, Option, none, some, [], ◌∷◌, if◌then◌else◌, ◌==◌}
use challenge_senior.Prelude.Int.{ℤ}
use challenge_senior.Prelude.GoMap.{GoMap}
use challenge_senior.Kit.Errors.{Error, message, is_invalid, is_not_found}
use challenge_senior.Kit.Action.{Result, ok, err, panic}
use challenge_senior.Kit.Context.{Context}
use challenge_senior.Events.{Event, payment_created, payment_initialized}
use challenge_senior.Payment as Pay
use challenge_senior.Health.{Health, check}
use challenge_senior.ReadModels.{PaymentView, Projector, get_payment}
use challenge_senior.Web.{
  Response, string, number, object, json, reply, http_error, Decoder, Validator, decode,
  trim_prefix,
}

pub record CreatePaymentReq : Type 0 where
  pub payment_id : String
  pub user_id : String
  pub amount : ℤ
  pub service : String

-- What the handler is given; the service is `service`, on its repository.
pub record Parts (S T : Type 0) : Type 0 where
  pub service : Pay.Parts S T
  pub append : String → Event → T → T
  pub publish : Event → T → T

pub record State (S T : Type 0) : Type 0 where
  pub payments : Pay.State S T
  pub health : Option Health
  pub rm : Option Projector

-- The clock as one request to create a payment reads it.
pub record Times : Type 0 where
  pub asked : ℕ
  pub begun : ℕ
  pub done : ℕ
  pub created : ℕ

unfoldable pub created_event : Pay.Payment → ℕ → Event
created_event p now = payment_created (record {
  payment_id = p.id;
  user_id = p.user_id;
  amount = p.amount;
  service = p.service;
  at = now;
})

unfoldable pub initialized_event : Pay.Payment → ℕ → Event
initialized_event p now = payment_initialized (record {
  payment_id = p.id;
  user_id = p.user_id;
  amount = p.amount;
  service = p.service;
  at = now;
})

abbrev pub accepted : Pay.Payment → Response
accepted p = reply 202 (json (("payment_id", string p.id) ∷ ("status", string p.status) ∷ []))

unfoldable pub unavailable : GoMap String → Response
unavailable checks = reply 503 (json (("status", string "down") ∷ ("checks", object checks) ∷ []))

-- `if db.IsInvalid(err) { … }` and what follows
unfoldable pub refused : Error → Response
refused e = if is_invalid e then http_error (message e) 400 else http_error "internal error" 500

abbrev pub bad_json : Response
bad_json = http_error "invalid json" 400

unfoldable pub show_view : PaymentView → Response
show_view v = reply 200 (
    json (
      ("payment_id", string v.payment_id)
      ∷ ("user_id", string v.user_id)
      ∷ ("amount", number v.amount)
      ∷ ("service", string v.service)
      ∷ ("status", string v.status)
      ∷ ("reason", string v.reason)
      ∷ ("gateway_id", string v.gateway_id)
      ∷ []))

unfoldable pub show_payment : Pay.Payment → Response
show_payment p = reply 200 (
    json (
      ("payment_id", string p.id)
      ∷ ("user_id", string p.user_id)
      ∷ ("amount", number p.amount)
      ∷ ("service", string p.service)
      ∷ ("status", string p.status)
      ∷ ("reason", string p.reason)
      ∷ ("gateway_id", string p.gateway_id)
      ∷ []))

unfoldable pub not_shown : Error → Response
not_shown e = if is_not_found e then http_error "not found" 404 else http_error "internal error" 500

-- `h.rm.GetPayment`, where there is a read model
abbrev pub view_of : Option Projector → String → Option PaymentView
view_of none i = none
view_of (some rm) i = get_payment i rm

module _ {S T : Type 0} (parts : Parts S T) where
  -- Both events, each appended and then published.
  unfoldable pub announce_created : Pay.Payment → ℕ → T → T
  unfolding created_event initialized_event
  announce_created p now t =
      let t₁ = parts.publish (created_event p now) (parts.append p.id (created_event p now) t) in
      parts.publish (initialized_event p now) (parts.append p.id (initialized_event p now) t₁)

  abbrev pub answer_create :
      ℕ → Result Pay.Payment × Pay.State S T → Result Response × Pay.State S T
  answer_create now (ok p, s) =
      (ok (accepted p), record s { outside = announce_created p now s.outside })
  answer_create now (err e, s) = (ok (refused e), s)
  answer_create now (panic, s) = (panic, s)

  -- What follows the check of the health.
  unfoldable pub create_payment :
      ℕ → CreatePaymentReq → Pay.State S T → Result Response × Pay.State S T
  unfolding announce_created refused
  create_payment now req s = answer_create now (
      Pay.initialize parts.service
        (Pay.to_create_request req.payment_id req.user_id req.amount req.service) s)

  abbrev pub create_healthy :
      ℕ → CreatePaymentReq → Option Health → State S T → Result Response × State S T
  create_healthy now req h s =
      let (r, p) = create_payment now req s.payments in (r, record s { payments = p; health = h })

  -- What follows the decoding.
  unfoldable pub create_decoded :
      Times → Context → CreatePaymentReq → State S T → Result Response × State S T
  unfolding create_payment unavailable check
  create_decoded t ctx req s = elim s.health [
    | none ↦ create_healthy t.created req none s
    | some h ↦
        let (a, h') = check t.asked t.begun t.done ctx h in
        if a.ok
        then create_healthy t.created req (some h') s
        else (ok (unavailable a.checks), record s { health = some h' })
  ]

  -- `Create`
  unfoldable pub create :
      {B : Type 0}
      → Decoder B CreatePaymentReq
      → Validator
      → Times
      → Context
      → B
      → State S T
      → Result Response × State S T
  unfolding create_decoded
  create dec v t ctx body s = elim (decode dec v body) [
    | inl e ↦ (ok bad_json, s)
    | inr req ↦ create_decoded t ctx req s
  ]

  abbrev pub answer_get : Result Pay.Payment × Pay.State S T → Result Response × Pay.State S T
  answer_get (ok p, s) = (ok (show_payment p), s)
  answer_get (err e, s) = (ok (not_shown e), s)
  answer_get (panic, s) = (panic, s)

  -- The read of the service.
  unfoldable pub get_from_service : String → State S T → Result Response × State S T
  unfolding show_payment not_shown
  get_from_service i s =
      let (r, p) = answer_get (Pay.get parts.service i s.payments) in (r, record s { payments = p })

  -- What follows the test of the id.
  unfoldable pub get_by_id : String → State S T → Result Response × State S T
  unfolding show_view get_from_service get_payment
  get_by_id i s = elim (view_of s.rm i) [
    | some v ↦ (ok (show_view v), s)
    | none ↦ get_from_service i s
  ]

  -- `Get`
  unfoldable pub get : String → State S T → Result Response × State S T
  unfolding get_by_id
  get path s =
      let i = trim_prefix path "/payments/" in
      if i == "" then (ok (http_error "missing payment_id" 400), s) else get_by_id i s
