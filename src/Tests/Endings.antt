-- ===== src/Tests/Endings.antt =====
-- The whole program, on a payment that ann cannot pay: it is asked for, refused by the wallet and
-- rejected, and ann then credits her wallet.
use challenge_senior.Prelude.{◌≤◌, String, ◌≡◌, refl, some, List, [], ◌∷◌, ◌++◌, arith}
use challenge_senior.Prelude.Int.{pos}
use challenge_senior.Prelude.GoMap.{lookup, index, insert}
use challenge_senior.Kit.Errors.{is_internal, message}
use challenge_senior.Wallet.{debit}
use challenge_senior.Wallet.Memory as WalletMemory
use challenge_senior.Payment.Memory as PaymentMemory
use challenge_senior.Consumers.WalletEvent as Purse
use challenge_senior.Web.Payment as WebPayment
use challenge_senior.Payment.{Payment, initialize, to_create_request, mark_rejected}
use challenge_senior.Consumers.PaymentFlowEvent.{handle_wallet_debit_rejected}
use challenge_senior.Web.Payment.{CreatePaymentReq, created_event, initialized_event}
use challenge_senior.Web.Wallet.{CreditReq}
use challenge_senior.Events.{Event, payment_initialized}
use challenge_senior.Events as Events
use challenge_senior.System.{
  Delivery, deliveries, deliver, post_payment, audit_any, projector_apply,
  wallet_payment_initialized, wallet_debit_requested, flow_debit_rejected,
}
use challenge_senior.System.Money.Requests.{asked}
use challenge_senior.System.Money.Runs.{
  Run, Steps, done, next, creates, delivers, credits, delivered, credited,
}
use challenge_senior.System.Money.Turns.{turns}
use challenge_senior.System.Money.Endings.{ended_payment_stays}
use challenge_senior.Tests.{json}
use challenge_senior.Tests.Systems.{
  Memory, program, held_in_pair, stored_in_pair, memory-IsDatabase, begun, begun-IsStart, moment,
  at_once, wanted,
}

abbrev dear : CreatePaymentReq
dear = record wanted { amount = pos 400 }

abbrev asked_for : Run json Memory (Unit {0})
asked_for = record begun { app = (post_payment program moment at_once dear begun.app).1 }

-- The run after one delivery; no handler here reads a balance.
abbrev after_one :
    Run json Memory (Unit {0})
    → List Delivery
    → Delivery
    → List Delivery
    → Run json Memory (Unit {0})
after_one r before d after =
    delivered program held_in_pair stored_in_pair moment (λ u. pos 0) before d after r

abbrev created_ones : List Delivery
created_ones = deliveries (created_event (asked dear) 4)

abbrev initialized_ones : List Delivery
initialized_ones =
    record { subscriber = audit_any; evt = initialized_event (asked dear) 4 }
    ∷ record { subscriber = projector_apply; evt = initialized_event (asked dear) 4 }
    ∷ []

abbrev first : Delivery
first = record { subscriber = wallet_payment_initialized; evt = initialized_event (asked dear) 4 }

abbrev second : Delivery
second = record {
  subscriber = wallet_debit_requested;
  evt =
      Events.wallet_debit_requested
        (record { payment_id = "p1"; user_id = "ann"; amount = pos 400; attempt = 1; at = 5 });
}

abbrev third : Delivery
third = record {
  subscriber = flow_debit_rejected;
  evt =
      Events.wallet_debit_rejected
        (record { payment_id = "p1"; user_id = "ann"; reason = "insufficient funds"; at = 5 });
}

abbrev rest : List Delivery
rest = created_ones ++ initialized_ones

abbrev begins : Run json Memory (Unit {0})
begins = after_one asked_for created_ones first initialized_ones

abbrev refused : Run json Memory (Unit {0})
refused = after_one begins rest second []

abbrev over_now : Run json Memory (Unit {0})
over_now = after_one refused rest third []

abbrev gift : CreditReq
gift = record { user_id = "ann"; amount = pos 500 }

abbrev richer : Run json Memory (Unit {0})
richer = credited program held_in_pair stored_in_pair moment (λ u. pos 100) gift over_now

to_the_end : Steps program held_in_pair stored_in_pair begun over_now
unfolding deliveries deliver post_payment lookup index created_event WebPayment.create_decoded
    initialize to_create_request PaymentMemory.save Purse.handle_payment_initialized
    Purse.handle_wallet_debit_requested debit WalletMemory.debit_if_sufficient_funds is_internal
    message
to_the_end =
    next
      (next
        (next (next done (creates moment at_once dear refl (ground arith))) (
          delivers moment (λ u. pos 0) created_ones first initialized_ones refl (λ u. refl)
            (λ u. ground arith)))
        (delivers moment (λ u. pos 0) rest second [] refl (λ u. refl) (λ u. ground arith)))
      (delivers moment (λ u. pos 0) rest third [] refl (λ u. refl) (λ u. ground arith))

and_on : Steps program held_in_pair stored_in_pair over_now richer
and_on = next done (credits moment (λ u. pos 100) gift (λ u. refl) (λ u. ground arith))

-- The payment as it ended.
abbrev turned_down : Payment
turned_down = record {
  id = "p1";
  user_id = "ann";
  amount = pos 400;
  service = "gas";
  status = "rejected";
  reason = "insufficient funds";
  gateway_id = "";
}

rejected : stored_in_pair over_now.app.db "p1" ≡ some turned_down
unfolding deliveries deliver post_payment lookup index created_event WebPayment.create_decoded
    initialize to_create_request PaymentMemory.save Purse.handle_payment_initialized
    Purse.handle_wallet_debit_requested debit WalletMemory.debit_if_sufficient_funds is_internal
    message handle_wallet_debit_rejected mark_rejected PaymentMemory.get insert
rejected = refl

ended_payment_stays_example :
    (stored_in_pair richer.app.db "p1" ≡ some turned_down)
    × (turns "p1" richer.app.outside.pending ≡ 0)
    × ((j : String) → turns j richer.app.outside.pending ≤ 1)
ended_payment_stays_example =
    ended_payment_stays program held_in_pair stored_in_pair memory-IsDatabase "p1" begun-IsStart
      to_the_end and_on rejected refl
