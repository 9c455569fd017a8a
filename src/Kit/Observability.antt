-- ===== src/Kit/Observability.antt =====
-- kit/observability/metrics.go: five int64 counters. An atomic add is one step.
use challenge_senior.Prelude.{Option, none, some}
use challenge_senior.Prelude.Int.{ℤ, pos}
use challenge_senior.Prelude.Int64.{add64}

pub record Metrics : Type 0 where
  pub payments_created : ℤ
  pub payments_succeeded : ℤ
  pub payments_failed : ℤ
  pub wallet_debits : ℤ
  pub wallet_refunds : ℤ

unfoldable pub new_metrics : Metrics
new_metrics = record {
  payments_created = pos 0;
  payments_succeeded = pos 0;
  payments_failed = pos 0;
  wallet_debits = pos 0;
  wallet_refunds = pos 0;
}

unfoldable pub payments_created_add : ℤ → Metrics → Metrics
payments_created_add n m = record m { payments_created = add64 m.payments_created n }

unfoldable pub payments_succeeded_add : ℤ → Metrics → Metrics
payments_succeeded_add n m = record m { payments_succeeded = add64 m.payments_succeeded n }

unfoldable pub payments_failed_add : ℤ → Metrics → Metrics
payments_failed_add n m = record m { payments_failed = add64 m.payments_failed n }

unfoldable pub wallet_debits_add : ℤ → Metrics → Metrics
wallet_debits_add n m = record m { wallet_debits = add64 m.wallet_debits n }

unfoldable pub wallet_refunds_add : ℤ → Metrics → Metrics
wallet_refunds_add n m = record m { wallet_refunds = add64 m.wallet_refunds n }

-- A call through a pointer that may be nil: `if m != nil { … }`.
abbrev pub bump : (Metrics → Metrics) → Option Metrics → Option Metrics
bump f none = none
bump f (some m) = some (f m)
