-- ===== src/Services.antt =====
-- The small services: notifications (internal/notification/service.go), dead letters
-- (internal/recovery/service.go) and the snapshot of the counters (internal/metrics/service.go).
-- The first two only log; a logger may be nil.
pub mod Audit
use challenge_senior.Prelude.{String, Option, none, some, [], ◌∷◌}
use challenge_senior.Prelude.Int.{ℤ}
use challenge_senior.Prelude.GoMap.{GoMap}
use challenge_senior.Kit.Logger.{Logger, plain, payload, info, error, logging}
use challenge_senior.Kit.Observability.{Metrics}
use challenge_senior.Events.{Event}

unfoldable pub notify : String → String → Option Logger → Option Logger
unfolding info
notify user msg = logging (info "notify" (("user_id", plain user) ∷ ("msg", plain msg) ∷ []))

unfoldable pub send_to_dlq : String → String → Event → Option Logger → Option Logger
unfolding error
send_to_dlq topic reason evt = logging (
    error "dlq" (("topic", plain topic) ∷ ("reason", plain reason) ∷ ("payload", payload evt) ∷ []))

unfoldable pub snapshot : Option Metrics → GoMap ℤ
snapshot none = []
snapshot (some m) =
    ("payments_created", m.payments_created)
    ∷ ("payments_succeeded", m.payments_succeeded)
    ∷ ("payments_failed", m.payments_failed)
    ∷ ("wallet_debits", m.wallet_debits)
    ∷ ("wallet_refunds", m.wallet_refunds)
    ∷ []
