-- ===== src/Consumers/RefundRetries.antt =====
-- A request to refund (cmd/consumers/handlers/wallet_event.go) as the bus (kit/broker/bus.go) retries
-- it while the wallets cannot be saved.
use mathlib.Core.Path.{subst}
use challenge_senior.Prelude.{ℕ, zero, suc, String, Bool, false, ◌≡◌, refl, ap, sym, ◌∙◌, some}
use challenge_senior.Prelude.Int.{ℤ}
use challenge_senior.Prelude.Int64.{add64}
use challenge_senior.Kit.Errors.{Error}
use challenge_senior.Kit.Action.{err}
use challenge_senior.Kit.Context.{Context}
use challenge_senior.Kit.Bus.{BusConfig, Delivery, Processed, safe_handle, process_delivery}
use challenge_senior.Kit.Bus.Retries.{called, FailsFirst, process_delivery-exhausts}
use challenge_senior.Events.{WalletRefundRequested, wallet_refund_requested}
use challenge_senior.Wallet.{Wallet, refund}
use challenge_senior.Wallet.Laws.{IsLedger}
use challenge_senior.Wallet.Service.{is_bad}
use challenge_senior.Wallet.Safety.{written_self}
use challenge_senior.Consumers.WalletEvent.{State, Parts, handle_wallet_refund_requested}

-- The delivery of the request to its handler; the time that the handler reads goes into the event
-- of a success.
abbrev pub refund_delivery :
    {S T : Type 0} → Parts S T → ℕ → Context → WalletRefundRequested → Delivery (State S T)
refund_delivery parts now ctx e = record {
  ctx = ctx;
  evt = wallet_refund_requested e;
  handler = λ _ evt. handle_wallet_refund_requested parts now evt;
  handler_index = 0;
}

-- The balance `b` with `a` added so many times.
abbrev pub added_times : ℕ → ℤ → ℤ → ℤ
added_times zero a b = b
added_times (suc n) a b = added_times n a (add64 b a)

module _ {S T : Type 0} (parts : Parts S T) (held : S → String → ℤ)
    (laws : IsLedger parts.repository held) (e : WalletRefundRequested) (x : Error)
    (good : is_bad e.user_id e.amount ≡ false) (IsFull : S → Type 0)
    (stays : (a : ℤ) (s : S) → IsFull s → IsFull (parts.repository.set_balance e.user_id a s).1)
    (unsaved : (a : ℤ) (s : S)
      → IsFull s
      → (parts.repository.set_balance e.user_id a s).0 ≡ err x) where
  -- The state after one call.
  abbrev pub paid_again : State S T → State S T
  paid_again s = record s {
    wallet = record s.wallet {
      repo =
          (parts.repository.set_balance e.user_id (add64 (held s.wallet.repo e.user_id) e.amount)
            s.wallet.repo).1;
    };
  }

  refund_unsaved :
      (w : Wallet S)
      → IsFull w.repo
      → refund parts.repository e.user_id e.amount w ≡ (
        err x,
        record w {
          repo =
              (parts.repository.set_balance e.user_id
                (add64 (held w.repo e.user_id) e.amount)
                w.repo).1;
        },
      )
  unfolding refund
  refund_unsaved w full = rw (
    good,
    laws.get_lem e.user_id w.repo,
    unsaved (add64 (held w.repo e.user_id) e.amount) w.repo full,
  )

  handled_once :
      (now : ℕ) (ctx : Context) (s : State S T)
      → IsFull s.wallet.repo
      → safe_handle (refund_delivery parts now ctx e) s ≡ (some x, paid_again s)
  unfolding safe_handle handle_wallet_refund_requested
  handled_once now ctx s full = rw (refund_unsaved s.wallet full)

  paid :
      (s : State S T)
      → held (paid_again s).wallet.repo e.user_id ≡ add64 (held s.wallet.repo e.user_id) e.amount
  paid s =
      laws.set_lem e.user_id (add64 (held s.wallet.repo e.user_id) e.amount) s.wallet.repo e.user_id
      ∙ written_self (held s.wallet.repo) e.user_id (add64 (held s.wallet.repo e.user_id) e.amount)

  still_full :
      (now : ℕ) (ctx : Context) (s : State S T)
      → IsFull s.wallet.repo
      → IsFull (safe_handle (refund_delivery parts now ctx e) s).1.wallet.repo
  still_full now ctx s full =
      subst (λ o. IsFull o.1.wallet.repo) (sym (handled_once now ctx s full))
        (stays (add64 (held s.wallet.repo e.user_id) e.amount) s.wallet.repo full)

  all_fail :
      (now : ℕ) (ctx : Context) (n : ℕ) (s : State S T)
      → IsFull s.wallet.repo
      → FailsFirst (refund_delivery parts now ctx e) n s
  all_fail now ctx zero s full = tt
  all_fail now ctx (suc n) s full = (
    (x, ap (λ o. o.0) (handled_once now ctx s full)),
    all_fail now ctx n _ (still_full now ctx s full),
  )

  paid_each :
      (now : ℕ) (ctx : Context) (n : ℕ) (s : State S T)
      → IsFull s.wallet.repo
      → held (called (refund_delivery parts now ctx e) n s).wallet.repo e.user_id
        ≡ added_times n e.amount (held s.wallet.repo e.user_id)
  unfolding called
  paid_each now ctx zero s full = refl
  paid_each now ctx (suc n) s full =
      paid_each now ctx n (safe_handle (refund_delivery parts now ctx e) s).1
        (still_full now ctx s full)
      ∙ ap (added_times n e.amount)
          (ap (λ o. held o.1.wallet.repo e.user_id) (handled_once now ctx s full) ∙ paid s)

  -- Over any wallet repository that keeps its contract, for a refund that the service takes,
  -- and while the bus is open and no write of that user's balance can be saved: where the
  -- attempts have a limit above 0, the handler is called as often as the limit allows, and the
  -- amount is added to the balance at every call.
  pub unsaved_refund_is_paid_each_time :
      (cfg : BusConfig) (closed_after : ℕ → Bool) (now : ℕ) (ctx : Context) (n : ℕ) (s : State S T)
      → ((m : ℕ) → closed_after m ≡ false)
      → cfg.max_attempts ≡ suc n
      → IsFull s.wallet.repo
      → (p : Processed (State S T)) × (process_delivery cfg closed_after
            (refund_delivery parts now ctx e)
            (suc n)
            s
          ≡ some p)
        × (p.calls ≡ cfg.max_attempts)
        × (held p.world.wallet.repo e.user_id
            ≡ added_times cfg.max_attempts e.amount (held s.wallet.repo e.user_id))
  unsaved_refund_is_paid_each_time cfg closed_after now ctx n s opened limit full =
      let (p, eq, calls, world) =
        process_delivery-exhausts cfg closed_after (refund_delivery parts now ctx e) n s opened
          limit (all_fail now ctx (suc n) s full) in
      (
        p,
        eq,
        calls,
        ap (λ w. held w.wallet.repo e.user_id) world
            ∙ paid_each now ctx (suc n) s full
            ∙ ap (λ k. added_times k e.amount (held s.wallet.repo e.user_id)) (sym limit),
      )
