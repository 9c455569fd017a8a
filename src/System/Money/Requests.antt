-- ===== src/System/Money/Requests.antt =====
-- What the two requests of cmd/web/handlers that write do to the database and to what waits.
use challenge_senior.Prelude.{
  ℕ, String, true, false, ◌||◌, ◌≡◌, refl, ◌⊎◌, inl, inr, some, List, ◌++◌, ◌==◌, arith, Bool-cases,
  Option-cases,
}
use challenge_senior.Prelude.Int.{ℤ, pos, leb_ℤ}
use challenge_senior.Prelude.Int64.{add64}
use challenge_senior.Kit.Action.{ok, err}
use challenge_senior.Kit.Codec.{Codec}
use challenge_senior.Wallet as Wal
use challenge_senior.Wallet.Service.{is_bad, bad_request}
use challenge_senior.Payment.{Payment, to_create_request, initialize, validate_create_request}
use challenge_senior.Payment as Pay
use challenge_senior.Payment.Service.{new_payment}
use challenge_senior.Health.{check}
use challenge_senior.Web.Payment as WebPayment
use challenge_senior.Web.Wallet as WebWallet
use challenge_senior.Web.Payment.{
  Times, CreatePaymentReq, create_decoded, create_payment, created_event, initialized_event,
  announce_created, refused, unavailable,
}
use challenge_senior.Web.Wallet.{CreditReq, credit_decoded, credited_event}
use challenge_senior.System.{
  App, Outside, Delivery, Moment, Parts, deliveries, post_payment, post_credit, web_parts,
  credit_parts,
}
use challenge_senior.System.Money.{PaymentsById, IsDatabase, late}

-- The payment that a request asks for.
abbrev pub asked : CreatePaymentReq → Payment
asked req = new_payment (record {
  payment_id = req.payment_id;
  user_id = req.user_id;
  amount = req.amount;
  service = req.service;
})

abbrev pub creation : CreatePaymentReq → ℕ → List Delivery
creation req now =
    deliveries (created_event (asked req) now) ++ deliveries (initialized_event (asked req) now)

module _ {c : Codec} {D G : Type 0} (parts : Parts c D G) (held : D → String → ℤ)
    (stored : D → PaymentsById) (seen : String → ℤ)
    (law : IsDatabase parts.wallets parts.payments held stored) where
  -- The payment was stored and its two events were queued, or nothing has changed.
  abbrev pub Created : CreatePaymentReq → ℕ → D → List Delivery → D → List Delivery → Type 0
  Created req now d ds d' ds' =
      ((d' ≡ d) × (ds' ≡ ds))
      ⊎ ((is_bad req.user_id req.amount ≡ false)
          × (d' ≡ (parts.payments.save (asked req) d).1)
          × (ds'
              ≡ (ds ++ deliveries (created_event (asked req) now))
                ++ deliveries (initialized_event (asked req) now)))

  good_request :
      (i u s : String) (a : ℤ)
      → (i == "" || u == "" || leb_ℤ a (pos 0) || s == "") ≡ false
      → is_bad u a ≡ false
  good_request i u s a h = ground arith

  created :
      (m : Moment) (now : ℕ) (req : CreatePaymentReq) (s : Pay.State D (Outside c))
      → let s' = (create_payment (web_parts parts m) now req s).1 in
        Created req now s.repo s.outside.pending s'.repo s'.outside.pending
  unfolding create_payment to_create_request initialize validate_create_request announce_created
  created m now req s =
      elim (Bool-cases (
        req.payment_id == ""
        || req.user_id == ""
        || leb_ℤ req.amount (pos 0)
        || req.service == "")) [
          | inl bad ↦ rw bad (inl (refl, refl))
          | inr good ↦
              rw (good, law.store.save_outcome (asked req) s.repo)
                (inr
                  (good_request req.payment_id req.user_id req.service req.amount good, refl, refl))
        ]

  abbrev pub CreatedFrom :
      Times
      → CreatePaymentReq
      → WebPayment.State D (Outside c)
      → WebPayment.State D (Outside c)
      → Type 0
  CreatedFrom t req s s' =
      Created req t.created s.payments.repo s.payments.outside.pending s'.payments.repo
        s'.payments.outside.pending

  created_checked :
      (m : Moment) (t : Times) (req : CreatePaymentReq) (s : WebPayment.State D (Outside c))
      → CreatedFrom t req s (create_decoded (web_parts parts m) t m.ctx req s).1
  unfolding create_decoded
  created_checked m t req s = elim (Option-cases s.health) [
    | inl none_given ↦ rw none_given (created m t.created req s.payments)
    | inr (h, given) ↦ elim (Bool-cases (check t.asked t.begun t.done m.ctx h).0.ok) [
      | inl up ↦ rw (given, up) (created m t.created req s.payments)
      | inr down ↦ rw (given, down) (inl (refl, refl))
    ]
  ]

  -- A request to create a payment, whatever the health is.
  pub post_payment_lem :
      (m : Moment) (t : Times) (req : CreatePaymentReq) (a : App c D G)
      → let a' = (post_payment parts m t req a).1 in
        Created req t.created a.db a.outside.pending a'.db a'.outside.pending
  unfolding post_payment
  post_payment_lem m t req a = created_checked m t req (record {
    payments = record { repo = a.db; outside = a.outside; metrics = a.metrics };
    health = a.health;
    rm = some a.projector;
  })

  credit_refused :
      (u : String) (a : ℤ) (w : Wal.Wallet D)
      → is_bad u a ≡ true
      → Wal.credit (late seen parts).wallets u a w ≡ (err bad_request, w)
  unfolding Wal.credit Wal.validate_credit_request Wal.to_credit_request
  credit_refused u a w bad = rw bad

  credit_taken :
      (u : String) (a : ℤ) (w : Wal.Wallet D)
      → is_bad u a ≡ false
      → Wal.credit (late seen parts).wallets u a w
        ≡ (ok tt, record w { repo = (parts.wallets.set_balance u (add64 (seen u) a) w.repo).1 })
  unfolding Wal.credit Wal.validate_credit_request Wal.to_credit_request
  credit_taken u a w good = rw (good, law.set_saved u (add64 (seen u) a) w.repo)

  -- The user's balance was written and the event was queued, or nothing has changed.
  abbrev pub Credited : CreditReq → ℕ → D → List Delivery → D → List Delivery → Type 0
  Credited req now d ds d' ds' =
      ((is_bad req.user_id req.amount ≡ true) × (d' ≡ d) × (ds' ≡ ds))
      ⊎ ((is_bad req.user_id req.amount ≡ false)
          × (d' ≡ (parts.wallets.set_balance req.user_id (add64 (seen req.user_id) req.amount) d).1)
          × (ds' ≡ ds ++ deliveries (credited_event req now)))

  credited :
      (m : Moment) (req : CreditReq) (s : WebWallet.State D (Outside c))
      → let s' = (credit_decoded (credit_parts (late seen parts) m) m.now req s).1 in
        Credited req m.now s.wallet.repo s.outside.pending s'.wallet.repo s'.outside.pending
  unfolding credit_decoded
  credited m req s = elim (Bool-cases (is_bad req.user_id req.amount)) [
    | inl bad ↦ inl (
      bad,
      rw (credit_refused req.user_id req.amount s.wallet bad),
      rw (credit_refused req.user_id req.amount s.wallet bad),
    )
    | inr good ↦ inr (
      good,
      rw (credit_taken req.user_id req.amount s.wallet good),
      rw (credit_taken req.user_id req.amount s.wallet good),
    )
  ]

  pub post_credit_lem :
      (m : Moment) (req : CreditReq) (a : App c D G)
      → let a' = (post_credit (late seen parts) m req a).1 in
        Credited req m.now a.db a.outside.pending a'.db a'.outside.pending
  unfolding post_credit
  post_credit_lem m req a = credited m req (record {
    wallet = record { repo = a.db; metrics = a.metrics };
    outside = a.outside;
    rm = some a.projector;
  })
