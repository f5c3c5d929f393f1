-- ===== src/Webhooks/Runs.antt =====
-- The runs of the worker of internal/service/webhook_worker.go on a reliable table, step by step, against
-- the verdict on a delivery.
use base_go_api.Prelude.{
  ℕ, ◌+◌, ◌==◌, ◌&&◌, ◌≡◌, refl, ap, sym, ◌∙◌, false, not, List, arith, inl, inr, Bool-cases, leb,
  ltb, take, ==_refl,
}
use base_go_api.Prelude.Bytes.{Bytes}
use base_go_api.Prelude.Outcome.{
  Outcome, ok, err, Call, attempt, map_err_state, ◌>>=◌, ◌>>◌, bind_runs,
}
use base_go_api.Errors.{wrap_internal}
use base_go_api.Sql.Table.{Laws, IsReliable, count, updated}
use base_go_api.Sql.Effects.{count-In, update_runs_lem}
use base_go_api.Sql.Results.{missing_or_internal, at_least_one}
use base_go_api.Webhooks.Delivery.{
  processing, status_eq, rate_limited, Webhook, WebhookDelivery, is_active, can_retry,
  retry_backoff,
}
use base_go_api.Webhooks.Repository.{World, find_webhook, find_delivery, update_status}
use base_go_api.Webhooks.Worker.{
  Times, start, answer, fail_with, retry_from, limit_from, unchanged, deliver, retry,
  mark_failed_and_maybe_retry, limit, settle, send, process_read, process_delivery,
}
use base_go_api.Webhooks.Bounded.{IsApart}
use base_go_api.Webhooks.Named.{
  has_name, SameName, updated-updated, count-updated, updated-unchanged,
}
use base_go_api.Webhooks.Found.{find_delivery_rows, find_delivery-In}
use base_go_api.Webhooks.Verdict.{
  Verdict, accepted, rejected, limited, heard, judge, retried, stopped, outcome,
}

settled :
    (t : Times) (d : WebhookDelivery) (v : Verdict) (r : WebhookDelivery)
    → status_eq (outcome t d v r).status processing ≡ false
settled t d (accepted code body) r = refl
settled t d (rejected a) r = ground arith
settled t d limited r = ground arith

module _ {S : Type 0} (world : World S) (laws : Laws world.deliveries)
    (reliable : IsReliable world.deliveries laws) (apart : IsApart world laws) where
  open laws use {rows, first_rows, update_ok}

  -- The rows are those of a start with one change of the rows of a name.
  abbrev Became : ℕ → (WebhookDelivery → WebhookDelivery) → List WebhookDelivery → S → Type 0
  Became id g R s = rows s ≡ updated (has_name id) g R

  find_webhook_rows : (id : ℕ) (s : S) → rows (find_webhook world id s).1 ≡ rows s
  unfolding find_webhook
  find_webhook_rows id s =
      ap rows (map_err_state missing_or_internal (world.webhooks.first (λ w. w.id == id)) s)
      ∙ apart.first_apart (λ w. w.id == id) s

  module _ (d : WebhookDelivery) (R : List WebhookDelivery)
      (there : (count (has_name d.id) R == 0) ≡ false) where
    update_step :
        (g h : WebhookDelivery → WebhookDelivery) (s : S)
        → SameName g
        → Became d.id g R s
        → ((update_status world d.id h s).0 ≡ ok tt)
          × Became d.id (λ d. h (g d)) R (update_status world d.id h s).1
    unfolding update_status
    update_step g h s same became =
        let raw = world.deliveries.update (has_name d.id) h in
        let runs =
          update_runs_lem world.deliveries laws reliable wrap_internal (has_name d.id) h
            at_least_one s in
        let many : (count (has_name d.id) (rows s) == 0) ≡ false =
          ap (λ l. count (has_name d.id) l == 0) became
          ∙ ap (λ n. n == 0) (count-updated d.id g R same)
          ∙ there in
        let ends : at_least_one (count (has_name d.id) (rows s)) (raw s).1 ≡ (ok tt, (raw s).1) =
          rw many refl in
        let changed =
          (update_ok (has_name d.id) h s _ (reliable.update_runs (has_name d.id) h s)).1 in
        (
          ap (λ r. r.0) (runs ∙ ends),
          ap (λ r. rows r.1) (runs ∙ ends)
              ∙ changed
              ∙ ap (updated (has_name d.id) h) became
              ∙ updated-updated d.id g h R same,
        )

    -- An update that is followed by a message.
    schedule_step :
        (g h : WebhookDelivery → WebhookDelivery) (at : ℕ) (s : S)
        → SameName g
        → Became d.id g R s
        → Became d.id
            (λ d. h (g d))
            R
            ((update_status world d.id h >> world.enqueue_retry d.id at) s).1
    schedule_step g h at s same became =
        let (runs, after) = update_step g h s same became in
        ap (λ r. rows r.1)
          (bind_runs (update_status world d.id h) (λ _. world.enqueue_retry d.id at) s runs)
        ∙ apart.retry_apart d.id at (update_status world d.id h s).1
        ∙ after

    retry_step :
        (g : WebhookDelivery → WebhookDelivery) (now : ℕ) (s : S)
        → SameName g
        → Became d.id g R s
        → Became d.id (λ r. retried now d (g r)) R (retry world now d s).1
    unfolding retry
    retry_step g now s same became = elim (Bool-cases (can_retry d)) [
      | inl may ↦
          rw may (
            schedule_step g (retry_from d now) (now + retry_backoff d.attempt_number) s same became)
      | inr done ↦ rw done became
    ]

    limit_step :
        (g : WebhookDelivery → WebhookDelivery) (now : ℕ) (s : S)
        → SameName g
        → Became d.id g R s
        → Became d.id (λ r. stopped now d (g r)) R (limit world now d s).1
    unfolding limit
    limit_step g now s same became = elim (Bool-cases (can_retry d)) [
      | inl may ↦
          rw may (
            schedule_step g (limit_from d now) (now + retry_backoff d.attempt_number) s same became)
      | inr done ↦ rw done (update_step g (λ r. record r { status = rate_limited }) s same became).1
    ]

    mark_failed_step :
        (g extra : WebhookDelivery → WebhookDelivery) (now : ℕ) (s : S)
        → SameName g
        → SameName extra
        → Became d.id g R s
        → Became d.id
            (λ r. retried now d (fail_with extra (g r)))
            R
            (mark_failed_and_maybe_retry world now d extra s).1
    unfolding mark_failed_and_maybe_retry
    mark_failed_step g extra now s same keeps became =
        let (runs, after) = update_step g (fail_with extra) s same became in
        retry_step (λ r. fail_with extra (g r)) now (update_status world d.id (fail_with extra) s).1
          (λ r. keeps (g r) ∙ same r) after

    settle_step :
        (t : Times) (o : Outcome (ℕ × Bytes)) (s : S)
        → Became d.id (start t.started) R s
        → Became d.id (outcome t d (heard o)) R (settle world t d o s).1
    unfolding settle
    settle_step t (err e) s became =
        mark_failed_step (start t.started) unchanged t.retried s (λ r. refl) (λ r. refl) became
    settle_step t (ok (code, body)) s became = elim (Bool-cases (leb 200 code && ltb code 300)) [
      | inl good ↦
          rw good
            (update_step (start t.started) (deliver t.answered code (take 1024 body)) s (λ r. refl)
              became).1
      | inr bad ↦ rw bad (
          mark_failed_step (start t.started) (answer code (take 1024 body)) t.retried s (λ r. refl)
            (λ r. refl) became)
    ]

    send_step :
        (size : ℕ) (t : Times) (o : Outcome Webhook) (s : S)
        → Became d.id (start t.started) R s
        → Became d.id (outcome t d (judge world size d o s)) R (send world size t d o s).1
    unfolding send
    send_step size t (err e) s became =
        mark_failed_step (start t.started) unchanged t.retried s (λ r. refl) (λ r. refl) became
    send_step size t (ok w) s became = elim (Bool-cases (not (is_active w))) [
      | inl sleeps ↦
          rw sleeps (
            mark_failed_step (start t.started) unchanged t.retried s (λ r. refl) (λ r. refl) became)
      | inr active ↦
          let s1 = (world.allow w.id s).1 in
          let still : Became d.id (start t.started) R s1 = apart.allow_apart w.id s ∙ became in
          elim (Bool-cases (world.allow w.id s).0) [
            | inl allowed ↦
                let posted = world.post w d (take size d.payload) s1 in
                rw (active, allowed)
                  (settle_step t posted.0 posted.1
                    (apart.post_apart w d (take size d.payload) s1 ∙ still))
            | inr full ↦
                rw (active, full) (limit_step (start t.started) t.started s1 (λ r. refl) still)
          ]
    ]

    process_read_step :
        (size : ℕ) (t : Times) (s : S)
        → rows s ≡ R
        → let s1 = (update_status world d.id (start t.started) s).1 in
          let (found, s2) = find_webhook world d.webhook_id s1 in
          Became d.id
            (outcome t d (judge world size d found s2))
            R
            (process_read world size t d s).1
    unfolding process_read
    process_read_step size t s same =
        let (runs, after) =
          update_step unchanged (start t.started) s (λ r. refl)
            (same ∙ sym (updated-unchanged d.id R)) in
        let s1 = (update_status world d.id (start t.started) s).1 in
        let found = find_webhook world d.webhook_id s1 in
        let sends : Call S (Unit {0}) =
          attempt (find_webhook world d.webhook_id) >>= send world size t d in
        ap (λ r. rows r.1)
          (bind_runs (update_status world d.id (start t.started)) (λ _. sends) s runs)
        ∙ send_step size t found.0 found.1 (find_webhook_rows d.webhook_id s1 ∙ after)

  -- On a reliable table, a run of the worker on a stored delivery changes its rows as the verdict says,
  -- that of the webhook, the limiter and the receiver as they are found after the delivery is marked,
  -- and no other row: the delivery is delivered, or waits for its next attempt, or has failed or is
  -- rate limited on its last one, and is not left in processing.
  pub process_delivery_lem :
      (size : ℕ) (t : Times) (id : ℕ) (s : S) (d : WebhookDelivery)
      → (find_delivery world id s).0 ≡ ok d
      → let s0 = (find_delivery world id s).1 in
        let s1 = (update_status world d.id (start t.started) s0).1 in
        let (found, s2) = find_webhook world d.webhook_id s1 in
        let v = judge world size d found s2 in
        (rows (process_delivery world size t id s).1
          ≡ updated (λ r. r.id == d.id) (outcome t d v) (rows s))
        × ((r : WebhookDelivery) → status_eq (outcome t d v r).status processing ≡ false)
  unfolding process_delivery
  process_delivery_lem size t id s d read =
      let R = rows s in
      let there =
        count-In (has_name d.id) R d (find_delivery-In world laws id s read) (==_refl d.id) in
      let s0 = (find_delivery world id s).1 in
      let s1 = (update_status world d.id (start t.started) s0).1 in
      let (found, s2) = find_webhook world d.webhook_id s1 in
      let run = (find_delivery world id >>= process_read world size t) s in
      (
        apart.remove_apart id run.1
            ∙ ap (λ r. rows r.1)
                (bind_runs (find_delivery world id) (process_read world size t) s read)
            ∙ process_read_step d R there size t s0 (find_delivery_rows world laws id s),
        settled t d (judge world size d found s2),
      )
