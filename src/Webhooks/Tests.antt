-- ===== src/Webhooks/Tests.antt =====
-- A webhook whose receiver answers 500, on concrete tables.
use base_go_api.Prelude.{false, ℕ, ◌≡◌, refl, true, List, [], ◌∷◌, none, some, arith, All}
use base_go_api.Prelude.Bytes.{codes}
use base_go_api.Prelude.Outcome.{ok}
use base_go_api.Sql.Memory.{list_table, list-Laws, list-IsReliable}
use base_go_api.Sql.Table.{Laws, IsReliable}
use base_go_api.Webhooks.Delivery.{processing, status_eq, is_terminal, Webhook, WebhookDelivery}
use base_go_api.Webhooks.Repository.{World, find_delivery, find_webhook, update_status}
use base_go_api.Webhooks.Worker.{Times, process_delivery}
use base_go_api.Webhooks.Service.{queued_delivery, Settings, Event, dispatch_event}
use base_go_api.Webhooks.Verdict.{rejected, outcome}
use base_go_api.Webhooks.Runs.{process_delivery_lem}
use base_go_api.Webhooks.Exhaustion.{IsRejected, IsOnly, run_all, gives_up}
use base_go_api.Ssrf.Validator.{
  default_config, validate_url, is_allowed_scheme, is_blocked_host, is_blocked_ip,
}
use base_go_api.Webhooks.Manage.{Guard, UpdateRequest, update, revise, save}
use base_go_api.Webhooks.Validated.{IsGuarded, update-ok}
use base_go_api.Webhooks.Bounded.{IsWithin, IsApart}
use base_go_api.Webhooks.Histories.{IsApartToo, dispatched, processed, here, next, Reach-IsWithin}

record Db : Type 0 where
  deliveries : List WebhookDelivery
  webhooks : List Webhook

abbrev hook : Webhook
hook = record {
  id = 1;
  organization_id = none;
  url = codes "https://example.com";
  secret = [];
  events = some (codes "user.created" ∷ []);
  active = some true;
}

abbrev world : World Db
world = record {
  deliveries = list_table (λ s. s.deliveries) (λ l s. record s { deliveries = l });
  webhooks = list_table (λ s. s.webhooks) (λ l s. record s { webhooks = l });
  enqueue = λ id s. (ok tt, s);
  enqueue_retry = λ id at s. (ok tt, s);
  remove_from_processing = λ id s. (ok tt, s);
  allow = λ id s. (true, s);
  post = λ w d b s. (ok (500, []), s);
}

abbrev world-Laws : Laws world.deliveries
world-Laws = list-Laws (λ s. s.deliveries) (λ l s. record s { deliveries = l }) (λ l s. refl)

abbrev world-IsApart : IsApart world world-Laws
world-IsApart = record {
  first_apart = λ p s. refl;
  retry_apart = λ id at s. refl;
  remove_apart = λ id s. refl;
  allow_apart = λ id s. refl;
  post_apart = λ w d b s. refl;
}

abbrev world-IsApartToo : IsApartToo world world-Laws
world-IsApartToo = record { find_apart = λ p s. refl; enqueue_apart = λ id s. refl }

abbrev start : Db
start = record { deliveries = []; webhooks = hook ∷ [] }

abbrev cfg : Settings
cfg = record { max_payload_size = 0; retry_max = 0; has_limiter = true; has_queue = true }

abbrev created : Event
created = record { name = codes "user.created"; payload = ok (codes "{}"); organization_id = none }

abbrev at : ℕ → Times
at n = record { started = n; answered = n; retried = n }

abbrev first_state : Db
first_state = (dispatch_event world cfg created 5 (λ limited w. 7) start).1

abbrev second_state : Db
second_state = (process_delivery world 100 (at 6) 7 first_state).1

Reach-IsWithin_example : All (IsWithin (λ id. 3)) second_state.deliveries
Reach-IsWithin_example =
    Reach-IsWithin world world-Laws world-IsApart world-IsApartToo (λ id. 3) (λ id. omega arith) tt
      (next (next here (dispatched cfg created 5 (λ limited w. 7) (λ w. (refl, refl)) refl))
        (processed 100 (at 6) 7 refl))

-- After the answer 500 the delivery waits for its second attempt.
waits :
    All
      (λ d. (d.attempt_number ≡ 2) × (d.next_retry_at ≡ some 60_000_000_006))
      second_state.deliveries
unfolding dispatch_event process_delivery
waits = ((refl, refl), tt)

abbrev world-IsReliable : IsReliable world.deliveries world-Laws
world-IsReliable =
    list-IsReliable (λ s. s.deliveries) (λ l s. record s { deliveries = l }) (λ l s. refl)

abbrev sent : WebhookDelivery
sent = queued_delivery cfg created 5 7 (codes "{}") hook

abbrev stored : Db
stored = record { deliveries = sent ∷ []; webhooks = hook ∷ [] }

process_delivery_lem_example :
    ((process_delivery world 100 (at 6) 7 stored).1.deliveries
      ≡ outcome (at 6) sent (rejected (some (500, []))) sent ∷ [])
    × ((r : WebhookDelivery)
        → status_eq (outcome (at 6) sent (rejected (some (500, []))) r).status processing ≡ false)
unfolding find_delivery find_webhook update_status
process_delivery_lem_example =
    process_delivery_lem world world-Laws world-IsReliable world-IsApart 100 (at 6) 7 stored sent
      refl

abbrev world-IsRejected : IsRejected world
world-IsRejected = record { allows = λ id s. refl; rejects = λ w d b s. (some (500, []), refl) }

-- Three runs of a delivery with three attempts.
gives_up_example :
    (e : WebhookDelivery) × (e.id ≡ 7)
    × IsOnly world world-Laws e (run_all world 100 7 (at 6 ∷ (at 7 ∷ (at 8 ∷ []))) stored)
    × (is_terminal e ≡ true)
    × (e.attempt_number ≡ 3)
gives_up_example =
    gives_up world world-Laws world-IsReliable world-IsApart world-IsRejected 100
      (at 6 ∷ (at 7 ∷ (at 8 ∷ []))) sent stored (stored.deliveries, refl, refl) refl (omega arith)
      refl

-- A validator that reads each text as one URL, whose host has a public address.
abbrev public_guard : Guard
public_guard = record {
  library = record {
    parse_url = λ s. some (record { scheme = codes "https"; hostname = codes "example.com" });
    parse_ip = λ s. none;
  };
  config = default_config;
  lookup = λ host. some ((93 ∷ (184 ∷ (216 ∷ (34 ∷ [])))) ∷ []);
  secret = ok (codes "whsec_1");
}

abbrev move_url : UpdateRequest
move_url = record {
  name = none;
  url = some (codes "https://example.com/new");
  events = [];
  active = none;
}

abbrev moved_hook : Webhook
moved_hook = record hook { url = codes "https://example.com/new"; secret = codes "whsec_1" }

update-ok_example :
    (w : Webhook) × ((find_webhook world 1 stored).0 ≡ ok w) × IsGuarded public_guard w moved_hook
unfolding update revise save find_webhook validate_url is_allowed_scheme is_blocked_host
    is_blocked_ip
update-ok_example = update-ok world public_guard 1 move_url moved_hook stored refl
