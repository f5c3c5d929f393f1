-- ===== src/Webhooks/Service.antt =====
-- The dispatch of events and the replay of deliveries of internal/service/webhook.go, and its check of
-- event names.
use base_go_api.Prelude.{
  ℕ, ◌==◌, ◌&&◌, Bool, true, false, not, List, [], ◌∷◌, Option, none, take, any, if◌then◌else◌,
}
use base_go_api.Prelude.Bytes.{Bytes, bytes_eq, codes}
use base_go_api.Prelude.Outcome.{Outcome, ok, err, Call, ◌>>=◌, ◌>>◌, pure, fail, map_err}
use base_go_api.Errors.{app, wrap_internal}
use base_go_api.Webhooks.Delivery.{
  queued, rate_limited, Webhook, WebhookDelivery, is_active, is_subscribed_to, can_replay, replay,
}
use base_go_api.Webhooks.Repository.{
  World, in_scope, find_for_event_dispatch, create_delivery, find_delivery, update_status,
}
use base_go_api.Webhooks.Worker.{quietly}

abbrev pub valid_webhook_events : List Bytes
valid_webhook_events =
    codes "user.created"
    ∷ (codes "user.deleted"
        ∷ (codes "invoice.created"
            ∷ (codes "invoice.paid"
                ∷ (codes "news.published"
                    ∷ (codes "news.deleted"
                        ∷ (codes "auth.oauth.linked" ∷ (codes "auth.oauth.unlinked" ∷ [])))))))

unfoldable pub validate_events : List Bytes → Outcome (Unit {0})
validate_events [] = err (app "VALIDATION_ERROR" 422)
validate_events (e ∷ es) =
    if any (λ x. not (any (bytes_eq x) valid_webhook_events)) (e ∷ es)
    then err (app "VALIDATION_ERROR" 422)
    else ok tt

-- The settings, 0 where they are not positive, and whether a limiter and a queue are set.
pub record Settings : Type 0 where
  pub max_payload_size : ℕ
  pub retry_max : ℕ
  pub has_limiter : Bool
  pub has_queue : Bool

-- An event: its type, its payload as `json.Marshal` writes it or its error, and its organization.
pub record Event : Type 0 where
  pub name : Bytes
  pub payload : Outcome Bytes
  pub organization_id : Option ℕ

abbrev pub payload_limit : Settings → ℕ
payload_limit cfg = if cfg.max_payload_size == 0 then 1_048_576 else cfg.max_payload_size

abbrev pub attempt_limit : Settings → ℕ
attempt_limit cfg = if cfg.retry_max == 0 then 3 else cfg.retry_max

-- The three tests of a webhook in the loop.
abbrev pub is_matched : Event → Webhook → Bool
is_matched e w = is_active w && (is_subscribed_to w e.name && in_scope e.organization_id w)

abbrev pub limited_delivery : Event → ℕ → ℕ → Webhook → WebhookDelivery
limited_delivery e now id w = record {
  id = id;
  webhook_id = w.id;
  event = e.name;
  payload = elim e.payload [ ok b ↦ b | err x ↦ [] ];
  status = rate_limited;
  response_code = none;
  response_body = [];
  attempt_number = 1;
  max_attempts = 3;
  next_retry_at = none;
  processing_started_at = none;
  delivered_at = none;
  created_at = now;
}

abbrev pub queued_delivery : Settings → Event → ℕ → ℕ → Bytes → Webhook → WebhookDelivery
queued_delivery cfg e now id payload w = record {
  id = id;
  webhook_id = w.id;
  event = e.name;
  payload = take (payload_limit cfg) payload;
  status = queued;
  response_code = none;
  response_body = [];
  attempt_number = 1;
  max_attempts = attempt_limit cfg;
  next_retry_at = none;
  processing_started_at = none;
  delivered_at = none;
  created_at = now;
}

module _ {S : Type 0} (world : World S) where
  -- The delivery to a webhook below its limit.
  unfoldable pub dispatch_queued : Settings → Event → ℕ → ℕ → Webhook → Call S (Unit {0})
  unfolding create_delivery
  dispatch_queued cfg e now id w = elim e.payload [
    | err x ↦ fail x
    | ok b ↦
        create_delivery world (queued_delivery cfg e now id b w)
        >> (if cfg.has_queue then world.enqueue id else pure tt)
  ]

  -- One webhook of the loop; `draw` gives the identifier of its delivery, by whether that is limited.
  unfoldable pub dispatch_one :
      Settings → Event → ℕ → (Bool → Webhook → ℕ) → Webhook → Call S (Unit {0})
  unfolding dispatch_queued
  dispatch_one cfg e now draw w =
      if not (is_matched e w)
      then pure tt
      else if cfg.has_limiter
      then (λ s.
          let (allowed, s1) = world.allow w.id s in
          (if allowed
              then dispatch_queued cfg e now (draw false w) w
              else quietly (create_delivery world (limited_delivery e now (draw true w) w)))
            s1)
      else dispatch_queued cfg e now (draw false w) w

  -- The loop: an error is kept, the last one is returned, and the loop goes on.
  unfoldable pub dispatch_each :
      Settings
      → Event
      → ℕ
      → (Bool → Webhook → ℕ)
      → Outcome (Unit {0})
      → List Webhook
      → Call S (Unit {0})
  unfolding dispatch_one
  dispatch_each cfg e now draw last [] s = (last, s)
  dispatch_each cfg e now draw last (w ∷ ws) s =
      let (o, s1) = dispatch_one cfg e now draw w s in
      dispatch_each cfg e now draw (elim o [ ok u ↦ last | err x ↦ err x ]) ws s1

  unfoldable pub dispatch_event : Settings → Event → ℕ → (Bool → Webhook → ℕ) → Call S (Unit {0})
  unfolding find_for_event_dispatch dispatch_each
  dispatch_event cfg e now draw =
      map_err wrap_internal (find_for_event_dispatch world e.organization_id)
      >>= dispatch_each cfg e now draw (ok tt)

  -- The replay of a delivery that was read.
  unfoldable pub replay_read : ℕ → WebhookDelivery → Call S WebhookDelivery
  unfolding find_delivery update_status
  replay_read id d =
      if not (can_replay d)
      then fail (app "CONFLICT" 409)
      else (map_err wrap_internal (update_status world id replay) >> find_delivery world id)

  unfoldable pub replay_delivery : ℕ → Call S WebhookDelivery
  unfolding find_delivery replay_read
  replay_delivery id = find_delivery world id >>= replay_read id
