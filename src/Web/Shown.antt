-- ===== src/Web/Shown.antt =====
-- A payment as cmd/web/handlers/payment.go shows it: from the read model
-- (internal/readmodels/projector.go), and from the service where the read model has no view.
use challenge_senior.Prelude.{
  ℕ, String, false, ◌≡◌, refl, ap, sym, ◌∙◌, inl, inr, Option, none, some, List, [], ◌∷◌, ◌==◌,
  if◌then◌else◌, eq_refl, arith,
}
use challenge_senior.Prelude.GoMap.{lookup, index, lookup-insert, or_zero}
use challenge_senior.Kit.Action.{ok}
use challenge_senior.Payment.{
  Payment, status_initialized, status_pending, status_rejected, status_succeeded, status_failed,
}
use challenge_senior.Payment as Pay
use challenge_senior.Payment.Laws.{IsStore}
use challenge_senior.Payment.Service.{
  Mark, pending, rejected, succeeded, failed, perform, marked, mark_event, perform_stored,
  new_payment, is_bad_request,
}
use challenge_senior.Payment.Marks.{perform_all, stored-perform, marked-SamePayment, saved_self}
use challenge_senior.ReadModels.{
  PaymentView, Projector, zero_payment, put_payment, get_payment, apply, apply_payment_created,
  apply_payment_initialized, apply_payment_pending, apply_payment_rejected, apply_payment_succeeded,
  apply_payment_failed,
}
use challenge_senior.Web.Payment.{
  CreatePaymentReq, Parts, State, create_payment, get_by_id, get_from_service, show_view,
  show_payment, created_event, initialized_event, announce_created,
}
use challenge_senior.Web.Creation.{request, answered}

-- The view `v` shows the payment `p`.
record Shows (v : PaymentView) (p : Payment) : Type 0 where
  same_id : v.payment_id ≡ p.id
  same_user : v.user_id ≡ p.user_id
  same_amount : v.amount ≡ p.amount
  same_service : v.service ≡ p.service
  same_status : v.status ≡ p.status
  same_reason : v.reason ≡ p.reason
  same_gateway : v.gateway_id ≡ p.gateway_id

Shows-response : (v : PaymentView) (p : Payment) → Shows v p → show_view v ≡ show_payment p
unfolding show_view show_payment
Shows-response v p h = rw (
  h.same_id, h.same_user, h.same_amount, h.same_service, h.same_status, h.same_reason,
  h.same_gateway,
)

-- The parts of a service whose bus applies every event to the read model.
abbrev pub projected : {S : Type 0} → Pay.Repository S → Pay.Parts S Projector
projected r = record { repository = r; append = none; publish = some apply }

-- What the read model shows of a payment once a view has been put.
put_view :
    (i : String) (f : PaymentView → PaymentView) (rm : Projector) {v : PaymentView}
    → lookup i rm.payments ≡ some v
    → lookup i (put_payment i f rm).payments ≡ some (f v)
unfolding index
put_view i f rm seen =
    lookup-insert i i (f (or_zero zero_payment (lookup i rm.payments))) rm.payments
    ∙ rw (eq_refl i, seen)

put_first_view :
    (i : String) (f : PaymentView → PaymentView) (rm : Projector)
    → lookup i rm.payments ≡ none
    → lookup i (put_payment i f rm).payments ≡ some (f zero_payment)
unfolding index
put_first_view i f rm unseen =
    lookup-insert i i (f (or_zero zero_payment (lookup i rm.payments))) rm.payments
    ∙ rw (eq_refl i, unseen)

-- What a transition's event does to a view.
abbrev pub update : ℕ → String → String → Mark → PaymentView → PaymentView
update now i u pending v = record v {
  payment_id = i;
  user_id = u;
  status = status_pending;
  updated_at = now;
}
update now i u (rejected reason) v = record v {
  payment_id = i;
  user_id = u;
  status = status_rejected;
  reason = reason;
  updated_at = now;
}
update now i u (succeeded gateway) v = record v {
  payment_id = i;
  user_id = u;
  status = status_succeeded;
  gateway_id = gateway;
  updated_at = now;
}
update now i u (failed reason) v = record v {
  payment_id = i;
  user_id = u;
  status = status_failed;
  reason = reason;
  updated_at = now;
}

apply-mark_event :
    (now : ℕ) (i u : String) (m : Mark) (rm : Projector)
    → apply (mark_event now i u m) rm ≡ put_payment i (update now i u m) rm
unfolding apply apply_payment_pending apply_payment_rejected apply_payment_succeeded
    apply_payment_failed
apply-mark_event now i u pending rm = refl
apply-mark_event now i u (rejected reason) rm = refl
apply-mark_event now i u (succeeded gateway) rm = refl
apply-mark_event now i u (failed reason) rm = refl

update-Shows :
    (now : ℕ) (i : String) (m : Mark) {p : Payment} {v : PaymentView}
    → p.id ≡ i
    → Shows v p
    → Shows (update now i p.user_id m v) (marked m p)
update-Shows now i pending own h = ground arith
update-Shows now i (rejected reason) own h = ground arith
update-Shows now i (succeeded gateway) own h = ground arith
update-Shows now i (failed reason) own h = ground arith

-- What the two events of a creation do to a view.
abbrev pub create_view : CreatePaymentReq → ℕ → PaymentView → PaymentView
create_view req now v = record v {
  payment_id = req.payment_id;
  user_id = req.user_id;
  amount = req.amount;
  service = req.service;
  status = if v.status == "" then status_initialized else v.status;
  updated_at = now;
}

abbrev pub initialize_view : CreatePaymentReq → ℕ → PaymentView → PaymentView
initialize_view req now v = record v {
  payment_id = req.payment_id;
  user_id = req.user_id;
  amount = req.amount;
  service = req.service;
  status = status_initialized;
  updated_at = now;
}

abbrev pub web_parts : {S : Type 0} → Pay.Repository S → Parts S Projector
web_parts r = record { service = projected r; append = λ i evt rm. rm; publish = apply }

module _ {S : Type 0} (r : Pay.Repository S) (stored : S → String → Option Payment)
    (laws : IsStore r stored) where
  -- The payment `i` is stored, and the read model shows what is stored.
  record IsShown (i : String) (s : Pay.State S Projector) : Type 0 where
    payment : Payment
    view : PaymentView
    found : stored s.repo i ≡ some payment
    own : payment.id ≡ i
    seen : lookup i s.outside.payments ≡ some view
    shows : Shows view payment

  perform-IsShown :
      (now : ℕ) (i : String) (m : Mark) (s : Pay.State S Projector)
      → IsShown i s
      → IsShown i (perform (projected r) now i m s).1
  perform-IsShown now i m s h = record {
    payment = marked m h.payment;
    view = update now i h.payment.user_id m h.view;
    found = stored-perform (projected r) stored laws now i m s h.found h.own;
    own = (marked-SamePayment m h.payment).same_id ∙ h.own;
    seen =
        rw
          (
            perform_stored (projected r) stored laws now i m s h.found,
            apply-mark_event now i h.payment.user_id m s.outside,
          )
          (put_view i (update now i h.payment.user_id m) s.outside h.seen);
    shows = update-Shows now i m h.own h.shows;
  }

  perform_all-IsShown :
      (i : String) (ms : List (ℕ × Mark)) (s : Pay.State S Projector)
      → IsShown i s
      → IsShown i (perform_all (projected r) i ms s)
  unfolding perform_all
  perform_all-IsShown i [] s h = h
  perform_all-IsShown i ((now, m) ∷ ms) s h =
      perform_all-IsShown i ms (perform (projected r) now i m s).1 (perform-IsShown now i m s h)

  create-IsShown :
      (now : ℕ) (req : CreatePaymentReq) (s : Pay.State S Projector)
      → is_bad_request (request req) ≡ false
      → lookup req.payment_id s.outside.payments ≡ none
      → IsShown req.payment_id (create_payment (web_parts r) now req s).1
  unfolding announce_created created_event initialized_event apply apply_payment_created
      apply_payment_initialized
  create-IsShown now req s good unseen =
      elim (answered (web_parts r) stored laws now req s req.payment_id) [
        | inl (bad, _) ↦ absurd (cc (bad, good))
        | inr (_, _, saved_now, told, _) ↦
            let p = new_payment (request req) in
            record {
              payment = p;
              view = initialize_view req now (create_view req now zero_payment);
              found = saved_now ∙ saved_self (stored s.repo) p refl;
              own = refl;
              seen = rw told (
                  put_view req.payment_id (initialize_view req now)
                    (put_payment req.payment_id (create_view req now) s.outside)
                    (put_first_view req.payment_id (create_view req now) s.outside unseen));
              shows = record {
                same_id = refl;
                same_user = refl;
                same_amount = refl;
                same_service = refl;
                same_status = refl;
                same_reason = refl;
                same_gateway = refl;
              };
            }
      ]

  from_view :
      (i : String) (s : State S Projector) (rm : Projector) {v : PaymentView}
      → s.rm ≡ some rm
      → lookup i rm.payments ≡ some v
      → (get_by_id (web_parts r) i s).0 ≡ ok (show_view v)
  unfolding get_by_id get_payment
  from_view i s rm given seen = rw (given, seen, get_by_id)

  from_service :
      (i : String) (s : State S Projector) {p : Payment}
      → s.rm ≡ none
      → stored s.payments.repo i ≡ some p
      → (get_by_id (web_parts r) i s).0 ≡ ok (show_payment p)
  unfolding get_by_id get_from_service Pay.get
  from_service i s given found = rw (given, laws.get_lem i s.payments.repo, found)

  shown_both :
      (i : String) (s : Pay.State S Projector)
      → IsShown i s
      → (get_by_id (web_parts r) i (record { payments = s; health = none; rm = some s.outside })).0
        ≡ (get_by_id (web_parts r) i (record { payments = s; health = none; rm = none })).0
  shown_both i s h =
      from_view i _ s.outside refl h.seen
      ∙ ap ok (Shows-response h.view h.payment h.shows)
      ∙ sym (from_service i (record { payments = s; health = none; rm = none }) refl h.found)

  -- Over any payment repository that is a map from ids to payments, and where the bus applies
  -- every event to the read model at once: after a request that is accepted for an id that the
  -- read model does not know, and whatever transitions of that payment follow, the payment is
  -- shown alike from the read model and from the service.
  pub shown_alike :
      (now : ℕ) (req : CreatePaymentReq) (ms : List (ℕ × Mark)) (s : Pay.State S Projector)
      → is_bad_request (request req) ≡ false
      → get_payment req.payment_id s.outside ≡ none
      → let i = req.payment_id in
        let s' = perform_all (projected r) i ms (create_payment (web_parts r) now req s).1 in
        (get_by_id
          (web_parts r)
          i
          (record { payments = s'; health = none; rm = some s'.outside })).0
        ≡ (get_by_id (web_parts r) i (record { payments = s'; health = none; rm = none })).0
  unfolding get_payment
  shown_alike now req ms s good unseen =
      shown_both req.payment_id _
        (perform_all-IsShown req.payment_id ms _ (create-IsShown now req s good unseen))
