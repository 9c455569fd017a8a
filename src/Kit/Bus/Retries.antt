-- ===== src/Kit/Bus/Retries.antt =====
-- How often the bus calls a handler for one delivery, and how long it waits (kit/broker/bus.go
-- `processDelivery`).
use challenge_senior.Prelude.{
  ℕ, zero, suc, ◌+◌, ◌≤◌, ◌<◌, Bool, true, false, ◌&&◌, ◌≡◌, refl, ◌⊎◌, inl, inr, none, some, List,
  [], ◌∷◌, ltb, leb, length, Bool-cases, Option-cases, arith,
}
use challenge_senior.Kit.Errors.{Error}
use challenge_senior.Kit.Bus.{
  BusConfig, Delivery, Processed, safe_handle, next_backoff, process, process_delivery,
}

module _ {W : Type 0} (d : Delivery W) where
  -- The world after `n` calls of the delivery's handler.
  unfoldable pub called : ℕ → W → W
  called zero w = w
  called (suc n) w = called n (safe_handle d w).1

  -- The first `n` calls fail.
  abbrev pub FailsFirst : ℕ → W → Type 0
  FailsFirst zero w = Unit {0}
  FailsFirst (suc n) w =
      ((e : Error) × ((safe_handle d w).0 ≡ some e)) × FailsFirst n (safe_handle d w).1

-- No limit, or one that the `n`-th call does not pass.
abbrev pub IsAllowed : BusConfig → ℕ → Type 0
IsAllowed cfg n = (cfg.max_attempts ≡ 0) ⊎ (n ≤ cfg.max_attempts)

module _ {W : Type 0} (cfg : BusConfig) (closed_after : ℕ → Bool) (d : Delivery W) where
  process-ends :
      (fuel attempt backoff : ℕ) (waits : List ℕ) (w : W)
      → attempt < cfg.max_attempts
      → cfg.max_attempts ≤ fuel + attempt
      → (p : Processed W) × (process cfg closed_after d fuel attempt backoff waits w ≡ some p)
        × (p.calls ≤ cfg.max_attempts)
        × (0 < p.calls)
  unfolding process
  process-ends zero attempt backoff waits w h k = absurd (omega arith)
  process-ends (suc fuel) attempt backoff waits w h k = elim (Option-cases (safe_handle d w).0) [
    | inl fine ↦ (
      record { calls = suc attempt; waits = waits; world = (safe_handle d w).1 },
      rw (fine, process),
      omega arith,
      omega arith,
    )
    | inr (e, failed) ↦
        elim (Bool-cases (ltb 0 cfg.max_attempts && leb cfg.max_attempts (suc attempt))) [
          | inl last ↦ (
            record { calls = suc attempt; waits = waits; world = (safe_handle d w).1 },
            rw (failed, last, process),
            omega arith,
            omega arith,
          )
          | inr more ↦ elim (Bool-cases (closed_after (suc attempt))) [
            | inl closed ↦ (
              record { calls = suc attempt; waits = waits; world = (safe_handle d w).1 },
              rw (failed, more, closed, process),
              omega arith,
              omega arith,
            )
            | inr opened ↦
                let (p, eq, bound, some_calls) =
                  process-ends fuel (suc attempt) (next_backoff cfg backoff) (backoff ∷ waits)
                    (safe_handle d w).1 (ground arith) (omega arith) in
                (p, rw (failed, more, opened, process) eq, bound, some_calls)
          ]
        ]
  ]

  -- Where the attempts have a limit, a delivery ends, whatever the handler does, after at least
  -- one call and at most as many as the limit; that much fuel is enough.
  pub process_delivery-ends :
      (w : W)
      → 0 < cfg.max_attempts
      → (p : Processed W) × (process_delivery cfg closed_after d cfg.max_attempts w ≡ some p)
        × (p.calls ≤ cfg.max_attempts)
        × (0 < p.calls)
  unfolding process_delivery
  process_delivery-ends w limit =
      process-ends cfg.max_attempts 0 cfg.retry_backoff [] w limit (omega arith)

  process-succeeds :
      (n attempt backoff : ℕ) (waits : List ℕ) (w : W)
      → ((m : ℕ) → closed_after m ≡ false)
      → IsAllowed cfg (suc (n + attempt))
      → FailsFirst d n w
      → (safe_handle d (called d n w)).0 ≡ none
      → (p : Processed W) × (process cfg closed_after d (suc n) attempt backoff waits w ≡ some p)
        × (p.calls ≡ suc (n + attempt))
        × (length p.waits ≡ n + length waits)
        × (p.world ≡ called d (suc n) w)
  unfolding process called
  process-succeeds zero attempt backoff waits w opened allowed fails succeeds = (
    record { calls = suc attempt; waits = waits; world = (safe_handle d w).1 },
    rw (succeeds, process),
    omega arith,
    omega arith,
    refl,
  )
  process-succeeds (suc n) attempt backoff waits w opened allowed ((e, failed), fails) succeeds =
      let (p, eq, calls, waited, reached) =
        process-succeeds n (suc attempt) (next_backoff cfg backoff) (backoff ∷ waits)
          (safe_handle d w).1 opened (ground arith) fails succeeds in
      (
        p,
        rw (failed, within allowed, opened (suc attempt), process) eq,
        omega (arith, calls),
        omega (arith, waited),
        reached,
      )
    where
      within :
          IsAllowed cfg (suc (suc n + attempt))
          → (ltb 0 cfg.max_attempts && leb cfg.max_attempts (suc attempt)) ≡ false
      within a = ground arith

  process-exhausts :
      (n attempt backoff : ℕ) (waits : List ℕ) (w : W)
      → ((m : ℕ) → closed_after m ≡ false)
      → cfg.max_attempts ≡ suc (n + attempt)
      → FailsFirst d (suc n) w
      → (p : Processed W) × (process cfg closed_after d (suc n) attempt backoff waits w ≡ some p)
        × (p.calls ≡ cfg.max_attempts)
        × (p.world ≡ called d (suc n) w)
  unfolding process called
  process-exhausts zero attempt backoff waits w opened limit ((e, failed), _) =
      let last : (ltb 0 cfg.max_attempts && leb cfg.max_attempts (suc attempt)) ≡ true =
        ground arith in
      (
        record { calls = suc attempt; waits = waits; world = (safe_handle d w).1 },
        rw (failed, last, process),
        omega arith,
        refl,
      )
  process-exhausts (suc n) attempt backoff waits w opened limit ((e, failed), fails) =
      let more : (ltb 0 cfg.max_attempts && leb cfg.max_attempts (suc attempt)) ≡ false =
        ground arith in
      let (p, eq, calls, reached) =
        process-exhausts n (suc attempt) (next_backoff cfg backoff) (backoff ∷ waits)
          (safe_handle d w).1 opened (omega arith) fails in
      (p, rw (failed, more, opened (suc attempt), process) eq, calls, reached)

  -- While the bus is open, a delivery whose calls fail as often as the limit allows ends after
  -- that many calls, in the world that they leave.
  pub process_delivery-exhausts :
      (n : ℕ) (w : W)
      → ((m : ℕ) → closed_after m ≡ false)
      → cfg.max_attempts ≡ suc n
      → FailsFirst d (suc n) w
      → (p : Processed W) × (process_delivery cfg closed_after d (suc n) w ≡ some p)
        × (p.calls ≡ cfg.max_attempts)
        × (p.world ≡ called d (suc n) w)
  unfolding process_delivery
  process_delivery-exhausts n w opened limit fails =
      process-exhausts n 0 cfg.retry_backoff [] w opened (omega arith) fails

  -- While the bus is open, a delivery whose first `n` calls fail and whose next one succeeds is
  -- done after that call, with a wait after each failure, if there is no limit or the limit
  -- allows so many calls.
  pub process_delivery-succeeds :
      (n : ℕ) (w : W)
      → ((m : ℕ) → closed_after m ≡ false)
      → IsAllowed cfg (suc n)
      → FailsFirst d n w
      → (safe_handle d (called d n w)).0 ≡ none
      → (p : Processed W) × (process_delivery cfg closed_after d (suc n) w ≡ some p)
        × (p.calls ≡ suc n)
        × (length p.waits ≡ n)
        × (p.world ≡ called d (suc n) w)
  unfolding process_delivery
  process_delivery-succeeds n w opened allowed fails succeeds =
      let (p, eq, calls, waited, reached) =
        process-succeeds n 0 cfg.retry_backoff [] w opened (ground arith) fails succeeds in
      (p, eq, omega (arith, calls), omega (arith, waited), reached)

  process-never_ends :
      (fuel attempt backoff : ℕ) (waits : List ℕ) (w : W)
      → cfg.max_attempts ≡ 0
      → ((m : ℕ) → closed_after m ≡ false)
      → ((v : W) → (e : Error) × ((safe_handle d v).0 ≡ some e))
      → process cfg closed_after d fuel attempt backoff waits w ≡ none
  unfolding process
  process-never_ends zero attempt backoff waits w no_limit opened fails = refl
  process-never_ends (suc fuel) attempt backoff waits w no_limit opened fails =
      let rest =
        process-never_ends fuel (suc attempt) (next_backoff cfg backoff) (backoff ∷ waits)
          (safe_handle d w).1 no_limit opened fails in
      rw ((fails w).1, no_limit, opened (suc attempt), process) rest

  -- Without a limit on the attempts, and while the bus is open, a delivery whose handler always
  -- fails never ends.
  pub process_delivery-never_ends :
      (fuel : ℕ) (w : W)
      → cfg.max_attempts ≡ 0
      → ((m : ℕ) → closed_after m ≡ false)
      → ((v : W) → (e : Error) × ((safe_handle d v).0 ≡ some e))
      → process_delivery cfg closed_after d fuel w ≡ none
  unfolding process_delivery
  process_delivery-never_ends fuel w = process-never_ends fuel 0 cfg.retry_backoff [] w
