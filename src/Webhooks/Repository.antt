-- ===== src/Webhooks/Repository.antt =====
-- internal/repository/webhook.go but for its pages, and what the worker reaches besides: the queue, the
-- rate limiter and the receiver.
use base_go_api.Prelude.{ℕ, ◌+◌, ◌*◌, ◌==◌, ◌&&◌, Bool, true, false, Option, none, some, List, ltb}
use base_go_api.Prelude.Bytes.{Bytes}
use base_go_api.Prelude.Outcome.{Call, ◌>>=◌, map_err}
use base_go_api.Errors.{wrap_internal}
use base_go_api.Sql.Table.{Table}
use base_go_api.Sql.Results.{missing_or_internal, at_least_one}
use base_go_api.Webhooks.Delivery.{processing, status_eq, Webhook, WebhookDelivery}

-- The tables, `WebhookQueue`, `WebhookRateLimiterInterface`, and the client: it posts a payload to a
-- webhook and reads a status and a body, or an error stops it.
pub record World (S : Type 0) : Type 0 where
  pub deliveries : Table S WebhookDelivery
  pub webhooks : Table S Webhook
  pub enqueue : ℕ → Call S (Unit {0})
  pub enqueue_retry : ℕ → ℕ → Call S (Unit {0})
  pub remove_from_processing : ℕ → Call S (Unit {0})
  pub allow : ℕ → S → Bool × S
  pub post : Webhook → WebhookDelivery → Bytes → Call S (ℕ × Bytes)

-- `status = ? AND processing_started_at < ?`
abbrev pub is_stuck : ℕ → ℕ → WebhookDelivery → Bool
is_stuck now timeout d =
    status_eq d.status processing
    && elim d.processing_started_at [ none ↦ false | some t ↦ ltb (t + timeout) now ]

-- `organization_id IS NULL OR organization_id = ?`
abbrev pub in_scope : Option ℕ → Webhook → Bool
in_scope org w = elim w.organization_id [
  | none ↦ true
  | some o ↦ elim org [ none ↦ false | some x ↦ o == x ]
]

module _ {S : Type 0} (world : World S) where
  unfoldable pub find_webhook : ℕ → Call S Webhook
  find_webhook id = map_err missing_or_internal (world.webhooks.first (λ w. w.id == id))

  unfoldable pub find_for_event_dispatch : Option ℕ → Call S (List Webhook)
  find_for_event_dispatch org = map_err wrap_internal (world.webhooks.find (in_scope org))

  unfoldable pub create_delivery : WebhookDelivery → Call S (Unit {0})
  create_delivery d = map_err wrap_internal (world.deliveries.create d)

  unfoldable pub find_delivery : ℕ → Call S WebhookDelivery
  find_delivery id = map_err missing_or_internal (world.deliveries.first (λ d. d.id == id))

  -- `UpdateStatus`; the status and the other updates are a change of the row.
  unfoldable pub update_status : ℕ → (WebhookDelivery → WebhookDelivery) → Call S (Unit {0})
  update_status id change =
      map_err wrap_internal (world.deliveries.update (λ d. d.id == id) change) >>= at_least_one

  unfoldable pub find_stuck_processing : ℕ → ℕ → Call S (List WebhookDelivery)
  find_stuck_processing now timeout =
      map_err wrap_internal (world.deliveries.find (is_stuck now timeout))

  -- A retention in days.
  unfoldable pub delete_older_than : ℕ → ℕ → Call S ℕ
  delete_older_than now days =
      map_err wrap_internal
        (world.deliveries.delete (λ d. ltb (d.created_at + days * 86_400_000_000_000) now))
