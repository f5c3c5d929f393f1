-- ===== src/Webhooks/Worker.antt =====
-- internal/service/webhook_worker.go but for its tickers and its counters.
use base_go_api.Prelude.{ℕ, ◌+◌, ◌*◌, ◌&&◌, not, some, List, [], ◌∷◌, ltb, leb, take, if◌then◌else◌}
use base_go_api.Prelude.Bytes.{Bytes}
use base_go_api.Prelude.Outcome.{Outcome, ok, err, Call, ◌>>=◌, ◌>>◌, pure, fail, attempt}
use base_go_api.Webhooks.Delivery.{
  queued, processing, delivered, failed, rate_limited, Webhook, WebhookDelivery, is_active,
  can_retry, retry_backoff,
}
use base_go_api.Webhooks.Repository.{
  World, find_webhook, find_delivery, update_status, find_stuck_processing,
}

-- The instants at which a run starts, hears from the receiver and gives up.
pub record Times : Type 0 where
  pub started : ℕ
  pub answered : ℕ
  pub retried : ℕ

abbrev pub start : ℕ → WebhookDelivery → WebhookDelivery
start now d = record d { status = processing; processing_started_at = some now }

abbrev pub answer : ℕ → Bytes → WebhookDelivery → WebhookDelivery
answer code body d = record d { response_code = some code; response_body = body }

abbrev pub fail_with : (WebhookDelivery → WebhookDelivery) → WebhookDelivery → WebhookDelivery
fail_with extra d = record (extra d) { status = failed }

-- The updates of a retry, from the delivery that was read.
abbrev pub retry_from : WebhookDelivery → ℕ → WebhookDelivery → WebhookDelivery
retry_from read now d = record d {
  status = queued;
  attempt_number = read.attempt_number + 1;
  next_retry_at = some (now + retry_backoff read.attempt_number);
}

abbrev pub limit_from : WebhookDelivery → ℕ → WebhookDelivery → WebhookDelivery
limit_from read now d = record d {
  status = rate_limited;
  attempt_number = read.attempt_number + 1;
  next_retry_at = some (now + retry_backoff read.attempt_number);
}

abbrev pub unchanged : WebhookDelivery → WebhookDelivery
unchanged d = d

abbrev pub deliver : ℕ → ℕ → Bytes → WebhookDelivery → WebhookDelivery
deliver now code body d = record (answer code body d) {
  status = delivered;
  delivered_at = some now;
}

-- A call whose error is logged and ignored.
abbrev pub quietly : {S : Type 0} → Call S (Unit {0}) → Call S (Unit {0})
quietly m = attempt m >>= (λ _. pure tt)

module _ {S : Type 0} (world : World S) where
  -- The retry of a delivery that was read, where it has one.
  unfoldable pub retry : ℕ → WebhookDelivery → Call S (Unit {0})
  unfolding update_status
  retry now d =
      if can_retry d
      then update_status world d.id (retry_from d now)
        >> world.enqueue_retry d.id (now + retry_backoff d.attempt_number)
      else pure tt

  unfoldable pub mark_failed_and_maybe_retry :
      ℕ → WebhookDelivery → (WebhookDelivery → WebhookDelivery) → Call S (Unit {0})
  unfolding retry update_status
  mark_failed_and_maybe_retry now d extra =
      attempt (update_status world d.id (fail_with extra)) >>= λ _. retry now d

  -- A delivery above the rate limit.
  unfoldable pub limit : ℕ → WebhookDelivery → Call S (Unit {0})
  unfolding update_status
  limit now d =
      if can_retry d
      then quietly (
          update_status world d.id (limit_from d now)
          >> world.enqueue_retry d.id (now + retry_backoff d.attempt_number))
      else quietly (update_status world d.id (λ r. record r { status = rate_limited }))

  -- What is made of the receiver's answer.
  unfoldable pub settle : Times → WebhookDelivery → Outcome (ℕ × Bytes) → Call S (Unit {0})
  unfolding mark_failed_and_maybe_retry update_status
  settle t d (err e) = attempt (mark_failed_and_maybe_retry t.retried d unchanged) >>= λ _. fail e
  settle t d (ok (code, body)) =
      if leb 200 code && ltb code 300
      then quietly (update_status world d.id (deliver t.answered code (take 1024 body)))
      else quietly (mark_failed_and_maybe_retry t.retried d (answer code (take 1024 body)))

  -- The delivery is sent, where its webhook is active and below its rate limit.
  unfoldable pub send : ℕ → Times → WebhookDelivery → Outcome Webhook → Call S (Unit {0})
  unfolding mark_failed_and_maybe_retry limit settle
  send max_payload t d (err e) =
      attempt (mark_failed_and_maybe_retry t.retried d unchanged) >>= λ _. fail e
  send max_payload t d (ok w) =
      if not (is_active w)
      then quietly (mark_failed_and_maybe_retry t.retried d unchanged)
      else (λ s.
          let (allowed, s1) = world.allow w.id s in
          (if allowed
              then (attempt (world.post w d (take max_payload d.payload)) >>= settle t d)
              else limit t.started d)
            s1)

  unfoldable pub process_read : ℕ → Times → WebhookDelivery → Call S (Unit {0})
  unfolding update_status find_webhook send
  process_read max_payload t d =
      update_status world d.id (start t.started)
      >> (attempt (find_webhook world d.webhook_id) >>= send max_payload t d)

  -- `processDelivery`; the deferred removal comes last, whatever the outcome.
  unfoldable pub process_delivery : ℕ → Times → ℕ → Call S (Unit {0})
  unfolding find_delivery process_read
  process_delivery max_payload t id s =
      let (outcome, s1) = (find_delivery world id >>= process_read max_payload t) s in
      (outcome, (world.remove_from_processing id s1).1)

  -- One round of the reaper over the deliveries that it has found; each of them on its own.
  unfoldable pub reap_each : ℕ → List WebhookDelivery → Call S (Unit {0})
  unfolding update_status retry
  reap_each now [] = pure tt
  reap_each now (d ∷ ds) =
      attempt (update_status world d.id (fail_with unchanged) >> retry now d) >>= λ _.
      reap_each now ds

  unfoldable pub reap : ℕ → ℕ → Call S (Unit {0})
  unfolding find_stuck_processing reap_each
  reap now timeout = find_stuck_processing world now (timeout * 2) >>= reap_each now
