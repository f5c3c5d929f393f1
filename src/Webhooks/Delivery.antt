-- ===== src/Webhooks/Delivery.antt =====
-- internal/domain/webhook.go: webhooks, deliveries and the tests of a delivery. The text of the last error
-- and the duration of a request are left out.
use base_go_api.Prelude.{
  ℕ, ◌==◌, ◌&&◌, ◌||◌, Bool, true, false, not, List, [], Option, none, some, ltb, leb, any,
  if◌then◌else◌,
}
use base_go_api.Prelude.Bytes.{Bytes, bytes_eq}

pub data Status : Type 0 where
  queued processing delivered failed rate_limited : Status

abbrev pub status_eq : Status → Status → Bool
status_eq queued queued = true
status_eq processing processing = true
status_eq delivered delivered = true
status_eq failed failed = true
status_eq rate_limited rate_limited = true
status_eq _ _ = false

-- The events as they are read, `none` where the text cannot be; rows that are deleted are not in the
-- table.
pub record Webhook : Type 0 where
  pub id : ℕ
  pub organization_id : Option ℕ
  pub url : Bytes
  pub secret : Bytes
  pub events : Option (List Bytes)
  pub active : Option Bool

abbrev pub is_active : Webhook → Bool
is_active w = elim w.active [ none ↦ false | some b ↦ b ]

abbrev pub is_subscribed_to : Webhook → Bytes → Bool
is_subscribed_to w event = elim w.events [ none ↦ false | some es ↦ any (λ e. bytes_eq e event) es ]

pub record WebhookDelivery : Type 0 where
  pub id : ℕ
  pub webhook_id : ℕ
  pub event : Bytes
  pub payload : Bytes
  pub status : Status
  pub response_code : Option ℕ
  pub response_body : Bytes
  pub attempt_number : ℕ
  pub max_attempts : ℕ
  pub next_retry_at : Option ℕ
  pub processing_started_at : Option ℕ
  pub delivered_at : Option ℕ
  pub created_at : ℕ

abbrev pub can_retry : WebhookDelivery → Bool
can_retry d = ltb d.attempt_number d.max_attempts && not (status_eq d.status delivered)

abbrev pub can_replay : WebhookDelivery → Bool
can_replay d = not (status_eq d.status queued) && not (status_eq d.status processing)

abbrev pub is_terminal : WebhookDelivery → Bool
is_terminal d =
    status_eq d.status delivered
    || (status_eq d.status failed && leb d.max_attempts d.attempt_number)

-- `Replay`, and the same fields as `ReplayDelivery` writes them.
unfoldable pub replay : WebhookDelivery → WebhookDelivery
replay d = record d {
  status = queued;
  attempt_number = 1;
  response_code = none;
  response_body = [];
  next_retry_at = none;
  processing_started_at = none;
  delivered_at = none;
}

-- `retryBackoff`, in nanoseconds.
abbrev pub retry_backoff : ℕ → ℕ
retry_backoff n =
    if n == 1 then 60_000_000_000 else if n == 2 then 300_000_000_000 else 1_800_000_000_000
