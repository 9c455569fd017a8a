-- ===== src/Web/Wallet.antt =====
-- cmd/web/handlers/wallet.go: the requests to credit a wallet and to show its balance. The store
-- and the bus, each unless it is nil, are what they do to the world outside, since the handler
-- drops their results; `rm` is the read model.
use challenge_senior.Prelude.{ℕ, String, inl, inr, Option, none, some, [], ◌∷◌, if◌then◌else◌, ◌==◌}
use challenge_senior.Prelude.Int.{ℤ}
use challenge_senior.Kit.Errors.{Error, message, is_invalid}
use challenge_senior.Kit.Action.{Result, ok, err, panic}
use challenge_senior.Events.{Event, wallet_credited}
use challenge_senior.Wallet as Wal
use challenge_senior.ReadModels.{WalletView, Projector, get_wallet}
use challenge_senior.Web.{
  Response, string, number, empty, json, reply, http_error, Decoder, Validator, decode, trim_prefix,
}

pub record CreditReq : Type 0 where
  pub user_id : String
  pub amount : ℤ

pub record Parts (S T : Type 0) : Type 0 where
  pub repository : Wal.Repository S
  pub append : Option (String → Event → T → T)
  pub publish : Option (Event → T → T)

pub record State (S T : Type 0) : Type 0 where
  pub wallet : Wal.Wallet S
  pub outside : T
  pub rm : Option Projector

abbrev pub append_to : {T : Type 0} → Option (String → Event → T → T) → String → Event → T → T
append_to none user evt t = t
append_to (some f) user evt t = f user evt t

abbrev pub publish_to : {T : Type 0} → Option (Event → T → T) → Event → T → T
publish_to none evt t = t
publish_to (some f) evt t = f evt t

unfoldable pub credited_event : CreditReq → ℕ → Event
credited_event req now =
    wallet_credited (record { user_id = req.user_id; amount = req.amount; at = now })

unfoldable pub refused : Error → Response
refused e = if is_invalid e then http_error (message e) 400 else http_error "internal error" 500

abbrev pub shown : String → ℤ → Response
shown user balance = reply 200 (json (("user_id", string user) ∷ ("balance", number balance) ∷ []))

-- `h.rm.GetWallet`, where there is a read model
abbrev pub view_of : Option Projector → String → Option WalletView
view_of none user = none
view_of (some rm) user = get_wallet user rm

module _ {S T : Type 0} (parts : Parts S T) where
  abbrev pub announce : CreditReq → ℕ → T → T
  announce req now t =
      publish_to parts.publish (credited_event req now)
        (append_to parts.append req.user_id (credited_event req now) t)

  abbrev pub answer_credit :
      CreditReq → ℕ → Result (Unit {0}) → State S T → Result Response × State S T
  answer_credit req now (ok _) s =
      (ok (reply 204 empty), record s { outside = announce req now s.outside })
  answer_credit req now (err e) s = (ok (refused e), s)
  answer_credit req now panic s = (panic, s)

  -- What follows the decoding.
  unfoldable pub credit_decoded : ℕ → CreditReq → State S T → Result Response × State S T
  unfolding credited_event refused
  credit_decoded now req s =
      let (r, w) = Wal.credit parts.repository req.user_id req.amount s.wallet in
      answer_credit req now r (record s { wallet = w })

  -- `Credit`
  unfoldable pub credit :
      {B : Type 0}
      → Decoder B CreditReq
      → Validator
      → ℕ
      → B
      → State S T
      → Result Response × State S T
  unfolding credit_decoded
  credit dec v now body s = elim (decode dec v body) [
    | inl e ↦ (ok (http_error "invalid json" 400), s)
    | inr req ↦ credit_decoded now req s
  ]

  abbrev pub answer_balance : String → Result ℤ → State S T → Result Response × State S T
  answer_balance user (ok b) s = (ok (shown user b), s)
  answer_balance user (err e) s = (ok (http_error "internal error" 500), s)
  answer_balance user panic s = (panic, s)

  -- What follows the test of the user.
  unfoldable pub balance_of : String → State S T → Result Response × State S T
  unfolding get_wallet
  balance_of user s = elim (view_of s.rm user) [
    | some v ↦ (ok (shown user v.balance), s)
    | none ↦
        let (r, w) = Wal.balance parts.repository user s.wallet in
        answer_balance user r (record s { wallet = w })
  ]

  -- `Balance`
  unfoldable pub balance : String → State S T → Result Response × State S T
  unfolding balance_of
  balance path s =
      let user = trim_prefix path "/wallet/" in
      if user == "" then (ok (http_error "missing user_id" 400), s) else balance_of user s
