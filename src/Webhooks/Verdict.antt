-- ===== src/Webhooks/Verdict.antt =====
-- What a run of the worker of internal/service/webhook_worker.go is to make of a delivery: a verdict, and
-- one change of its row.
use base_go_api.Prelude.{ℕ, ◌&&◌, not, Option, none, some, leb, ltb, take, if◌then◌else◌}
use base_go_api.Prelude.Bytes.{Bytes}
use base_go_api.Prelude.Outcome.{Outcome, ok, err}
use base_go_api.Webhooks.Delivery.{rate_limited, Webhook, WebhookDelivery, is_active, can_retry}
use base_go_api.Webhooks.Repository.{World}
use base_go_api.Webhooks.Worker.{
  Times, start, answer, fail_with, retry_from, limit_from, unchanged, deliver,
}

-- A rejected delivery has an answer of the receiver or none.
pub data Verdict : Type 0 where
  accepted : ℕ → Bytes → Verdict
  rejected : Option (ℕ × Bytes) → Verdict
  limited : Verdict

abbrev pub heard : Outcome (ℕ × Bytes) → Verdict
heard (err e) = rejected none
heard (ok (code, body)) =
    if leb 200 code && ltb code 300
    then accepted code (take 1024 body)
    else rejected (some (code, take 1024 body))

-- The verdict on a delivery, by its webhook, the limiter and the receiver.
abbrev pub judge : {S : Type 0} → World S → ℕ → WebhookDelivery → Outcome Webhook → S → Verdict
judge world size d (err e) s = rejected none
judge world size d (ok w) s =
    if not (is_active w)
    then rejected none
    else if (world.allow w.id s).0
    then heard (world.post w d (take size d.payload) (world.allow w.id s).1).0
    else limited

abbrev pub noted : Option (ℕ × Bytes) → WebhookDelivery → WebhookDelivery
noted none = unchanged
noted (some (code, body)) = answer code body

abbrev pub retried : ℕ → WebhookDelivery → WebhookDelivery → WebhookDelivery
retried now read r = if can_retry read then retry_from read now r else r

abbrev pub stopped : ℕ → WebhookDelivery → WebhookDelivery → WebhookDelivery
stopped now read r =
    if can_retry read then limit_from read now r else record r { status = rate_limited }

-- The row after the run, from the delivery that was read and the row before.
abbrev pub outcome : Times → WebhookDelivery → Verdict → WebhookDelivery → WebhookDelivery
outcome t read (accepted code body) r = deliver t.answered code body (start t.started r)
outcome t read (rejected a) r = retried t.retried read (fail_with (noted a) (start t.started r))
outcome t read limited r = stopped t.started read (start t.started r)
