-- ===== src/Webhooks/WorkerBound.antt =====
-- The limit of attempts under the calls of the worker of internal/service/webhook_worker.go.
use base_go_api.Prelude.{
  ℕ, ◌+◌, ◌≡◌, refl, sym, subst, Bool, not, All, take, ◌==◌, leb, ltb, ◌&&◌, inl, inr, Bool-cases,
  if◌then◌else◌,
}
use base_go_api.Prelude.Bytes.{Bytes}
use base_go_api.Prelude.Keeping.{
  Keeps, pure-Keeps, fail-Keeps, bind-Keeps, map_err-Keeps, attempt-Keeps, if-Keeps, bind_leads,
}
use base_go_api.Prelude.Outcome.{Outcome, ok, err, Call, pure, fail, map_err, attempt, ◌>>=◌, ◌>>◌}
use base_go_api.Errors.{not_found, wrap_internal}
use base_go_api.Sql.Table.{Laws}
use base_go_api.Sql.Results.{missing_or_internal, at_least_one}
use base_go_api.Webhooks.Delivery.{
  is_active, Webhook, WebhookDelivery, can_retry, retry_backoff, rate_limited,
}
use base_go_api.Webhooks.Repository.{World, find_webhook, find_delivery, update_status}
use base_go_api.Webhooks.Worker.{
  Times, start, answer, fail_with, retry_from, limit_from, unchanged, deliver, quietly, retry,
  mark_failed_and_maybe_retry, limit, settle, send, process_read, process_delivery,
}
use base_go_api.Webhooks.Found.{find_delivery_rows, find_delivery-In}
use base_go_api.Webhooks.Bounded.{IsWithin, row_bound, Safe, updated-All, next_attempt, IsApart}

module _ {S : Type 0} (world : World S) (laws : Laws world.deliveries) (apart : IsApart world laws)
    (cap : ℕ → ℕ) where
  open laws use {rows, update_ok, update_err}

  abbrev pub Within : S → Type 0
  Within s = All (IsWithin cap) (rows s)

  pub kept_rows : {s e : S} → rows e ≡ rows s → Within s → Within e
  kept_rows same h = subst (All (IsWithin cap)) (sym same) h

  pub update_status-Keeps :
      (id : ℕ) (change : WebhookDelivery → WebhookDelivery)
      → Safe cap id change
      → Keeps Within (update_status world id change)
  unfolding update_status
  update_status-Keeps id change safe =
      bind-Keeps Within (map_err wrap_internal (world.deliveries.update (λ d. d.id == id) change))
        at_least_one
        (map_err-Keeps Within wrap_internal (world.deliveries.update (λ d. d.id == id) change) raw)
        (λ n.
          if-Keeps Within (n == 0) (fail not_found) (pure tt)
            (fail-Keeps Within (Unit {0}) not_found) (pure-Keeps Within tt))
    where
      raw : Keeps Within (world.deliveries.update (λ d. d.id == id) change)
      raw s h = go (world.deliveries.update (λ d. d.id == id) change s).0 refl
        where
          go :
              (o : Outcome ℕ)
              → (world.deliveries.update (λ d. d.id == id) change s).0 ≡ o
              → Within (world.deliveries.update (λ d. d.id == id) change s).1
          go (ok n) e =
              subst (All (IsWithin cap)) (sym (update_ok (λ d. d.id == id) change s n e).1)
                (updated-All cap id change (rows s) safe h)
          go (err x) e = kept_rows (update_err (λ d. d.id == id) change s x e) h

  pub quietly-Keeps : (m : Call S (Unit {0})) → Keeps Within m → Keeps Within (quietly m)
  quietly-Keeps m k =
      bind-Keeps Within (attempt m) (λ _. pure tt) (attempt-Keeps Within m k)
        (λ o. pure-Keeps Within tt)

  -- An update, and a message for the retry.
  schedule-Keeps :
      (id at : ℕ) (change : WebhookDelivery → WebhookDelivery)
      → Safe cap id change
      → Keeps Within (update_status world id change >> world.enqueue_retry id at)
  schedule-Keeps id at change safe =
      bind-Keeps Within (update_status world id change) (λ _. world.enqueue_retry id at)
        (update_status-Keeps id change safe) (λ u s h. kept_rows (apart.retry_apart id at s) h)

  pub retry-Keeps :
      (now : ℕ) (d : WebhookDelivery) → IsWithin cap d → Keeps Within (retry world now d)
  unfolding retry
  retry-Keeps now d within = elim (Bool-cases (can_retry d)) [
    | inl may ↦ rw may (
        schedule-Keeps d.id (now + retry_backoff d.attempt_number) (retry_from d now)
          (λ r same w. next_attempt cap d r within w same may))
    | inr done ↦ rw done (pure-Keeps Within tt)
  ]

  limit-Keeps : (now : ℕ) (d : WebhookDelivery) → IsWithin cap d → Keeps Within (limit world now d)
  unfolding limit
  limit-Keeps now d within = elim (Bool-cases (can_retry d)) [
    | inl may ↦ rw may (
        quietly-Keeps
          (update_status world d.id (limit_from d now)
            >> world.enqueue_retry d.id (now + retry_backoff d.attempt_number))
          (schedule-Keeps d.id (now + retry_backoff d.attempt_number) (limit_from d now)
            (λ r same w. next_attempt cap d r within w same may)))
    | inr done ↦ rw done (
        quietly-Keeps (update_status world d.id (λ r. record r { status = rate_limited }))
          (update_status-Keeps d.id (λ r. record r { status = rate_limited }) (λ r same w. w)))
  ]

  mark_failed-Keeps :
      (now : ℕ) (d : WebhookDelivery) (extra : WebhookDelivery → WebhookDelivery)
      → Safe cap d.id extra
      → IsWithin cap d
      → Keeps Within (mark_failed_and_maybe_retry world now d extra)
  unfolding mark_failed_and_maybe_retry
  mark_failed-Keeps now d extra safe within =
      bind-Keeps Within (attempt (update_status world d.id (fail_with extra)))
        (λ _. retry world now d)
        (attempt-Keeps Within (update_status world d.id (fail_with extra))
          (update_status-Keeps d.id (fail_with extra) (λ r same w. safe r same w)))
        (λ o. retry-Keeps now d within)

  settle-Keeps :
      (t : Times) (d : WebhookDelivery) (o : Outcome (ℕ × Bytes))
      → IsWithin cap d
      → Keeps Within (settle world t d o)
  unfolding settle
  settle-Keeps t d (err e) within =
      bind-Keeps Within (attempt (mark_failed_and_maybe_retry world t.retried d unchanged))
        (λ _. fail {A = Unit {0}} e)
        (attempt-Keeps Within (mark_failed_and_maybe_retry world t.retried d unchanged)
          (mark_failed-Keeps t.retried d unchanged (λ r same w. w) within))
        (λ o. fail-Keeps Within (Unit {0}) e)
  settle-Keeps t d (ok (code, body)) within =
      if-Keeps Within (leb 200 code && ltb code 300)
        (quietly (update_status world d.id (deliver t.answered code (take 1024 body))))
        (quietly (mark_failed_and_maybe_retry world t.retried d (answer code (take 1024 body))))
        (quietly-Keeps (update_status world d.id (deliver t.answered code (take 1024 body)))
          (update_status-Keeps d.id (deliver t.answered code (take 1024 body)) (λ r same w. w)))
        (quietly-Keeps
          (mark_failed_and_maybe_retry world t.retried d (answer code (take 1024 body)))
          (mark_failed-Keeps t.retried d (answer code (take 1024 body)) (λ r same w. w) within))

  pub after_allow :
      (id : ℕ) (f : Bool → Call S (Unit {0}))
      → ((b : Bool) → Keeps Within (f b))
      → Keeps Within (λ s. let (allowed, s1) = world.allow id s in f allowed s1)
  after_allow id f k s h =
      k (world.allow id s).0 (world.allow id s).1 (kept_rows (apart.allow_apart id s) h)

  send-Keeps :
      (size : ℕ) (t : Times) (d : WebhookDelivery) (o : Outcome Webhook)
      → IsWithin cap d
      → Keeps Within (send world size t d o)
  unfolding send
  send-Keeps size t d (err e) within =
      bind-Keeps Within (attempt (mark_failed_and_maybe_retry world t.retried d unchanged))
        (λ _. fail {A = Unit {0}} e)
        (attempt-Keeps Within (mark_failed_and_maybe_retry world t.retried d unchanged)
          (mark_failed-Keeps t.retried d unchanged (λ r same w. w) within))
        (λ o. fail-Keeps Within (Unit {0}) e)
  send-Keeps size t d (ok w) within =
      let posted = λ (s : S). attempt (world.post w d (take size d.payload)) s in
      let sends : Call S (Unit {0}) =
        attempt (world.post w d (take size d.payload)) >>= settle world t d in
      if-Keeps Within (not (is_active w))
        (quietly (mark_failed_and_maybe_retry world t.retried d unchanged))
        (λ s.
          let (allowed, s1) = world.allow w.id s in
          (if allowed then sends else limit world t.started d) s1)
        (quietly-Keeps (mark_failed_and_maybe_retry world t.retried d unchanged)
          (mark_failed-Keeps t.retried d unchanged (λ r same x. x) within))
        (after_allow w.id (λ allowed. if allowed then sends else limit world t.started d)
          (λ b.
            if-Keeps Within b sends (limit world t.started d)
              (bind-Keeps Within (attempt (world.post w d (take size d.payload))) (settle world t d)
                (attempt-Keeps Within (world.post w d (take size d.payload))
                  (λ s h. kept_rows (apart.post_apart w d (take size d.payload) s) h))
                (λ o. settle-Keeps t d o within))
              (limit-Keeps t.started d within)))

  find_webhook-Keeps : (id : ℕ) → Keeps Within (find_webhook world id)
  unfolding find_webhook
  find_webhook-Keeps id =
      map_err-Keeps Within missing_or_internal (world.webhooks.first (λ w. w.id == id))
        (λ s h. kept_rows (apart.first_apart (λ w. w.id == id) s) h)

  process_read-Keeps :
      (size : ℕ) (t : Times) (d : WebhookDelivery)
      → IsWithin cap d
      → Keeps Within (process_read world size t d)
  unfolding process_read
  process_read-Keeps size t d within =
      bind-Keeps Within (update_status world d.id (start t.started))
        (λ _. attempt (find_webhook world d.webhook_id) >>= send world size t d)
        (update_status-Keeps d.id (start t.started) (λ r same w. w))
        (λ u.
          bind-Keeps Within (attempt (find_webhook world d.webhook_id)) (send world size t d)
            (attempt-Keeps Within (find_webhook world d.webhook_id)
              (find_webhook-Keeps d.webhook_id))
            (λ o. send-Keeps size t d o within))

  pub process_delivery-Keeps :
      (size : ℕ) (t : Times) (id : ℕ) → Keeps Within (process_delivery world size t id)
  unfolding process_delivery
  process_delivery-Keeps size t id s h =
      let (outcome, s1) = (find_delivery world id >>= process_read world size t) s in
      kept_rows (apart.remove_apart id s1) (
        bind_leads Within (find_delivery world id) (process_read world size t) s
          (λ e x. kept_rows (find_delivery_rows world laws id s) h)
          (λ d x.
            process_read-Keeps size t d
              (row_bound cap (rows s) d h (find_delivery-In world laws id s x))
              (find_delivery world id s).1 (kept_rows (find_delivery_rows world laws id s) h)))
