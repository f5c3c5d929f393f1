-- ===== src/Webhooks/ReaperBound.antt =====
-- The limit of attempts under the reaper of internal/service/webhook_worker.go.
use base_go_api.Prelude.{ℕ, ◌*◌, ap, sym, ◌∙◌, subst, List, [], ◌∷◌, All}
use base_go_api.Prelude.Keeping.{Keeps, pure-Keeps, bind-Keeps, attempt-Keeps, bind_leads}
use base_go_api.Prelude.Outcome.{Call, map_err, map_err_state, map_err-eq-ok, attempt, ◌>>◌}
use base_go_api.Errors.{wrap_internal}
use base_go_api.Sql.Table.{Laws}
use base_go_api.Webhooks.Delivery.{WebhookDelivery}
use base_go_api.Webhooks.Repository.{World, update_status, find_stuck_processing, is_stuck}
use base_go_api.Webhooks.Worker.{fail_with, unchanged, retry, reap_each, reap}
use base_go_api.Webhooks.Bounded.{IsWithin, keep-All, IsApart}
use base_go_api.Webhooks.WorkerBound.{Within, kept_rows, update_status-Keeps, retry-Keeps}

module _ {S : Type 0} (world : World S) (laws : Laws world.deliveries) (apart : IsApart world laws)
    (cap : ℕ → ℕ) where
  open laws use {rows, find_rows, find_ok}

  abbrev AllWithin : S → Type 0
  AllWithin = Within world laws apart cap

  reap_each-Keeps :
      (now : ℕ) (ds : List WebhookDelivery)
      → All (IsWithin cap) ds
      → Keeps AllWithin (reap_each world now ds)
  unfolding reap_each
  reap_each-Keeps now [] all = pure-Keeps AllWithin tt
  reap_each-Keeps now (d ∷ ds) (one, all) =
      let again : Call S (Unit {0}) =
        update_status world d.id (fail_with unchanged) >> retry world now d in
      bind-Keeps AllWithin (attempt again) (λ _. reap_each world now ds)
        (attempt-Keeps AllWithin again (
          bind-Keeps AllWithin (update_status world d.id (fail_with unchanged))
            (λ _. retry world now d)
            (update_status-Keeps world laws apart cap d.id (fail_with unchanged) (λ r same w. w))
            (λ u. retry-Keeps world laws apart cap now d one)))
        (λ o. reap_each-Keeps now ds all)

  pub reap-Keeps : (now timeout : ℕ) → Keeps AllWithin (reap world now timeout)
  unfolding reap find_stuck_processing
  reap-Keeps now timeout s h =
      let p = is_stuck now (timeout * 2) in
      let find = world.deliveries.find p in
      let kept : AllWithin (map_err wrap_internal find s).1 =
        kept_rows world laws apart cap
          (ap rows (map_err_state wrap_internal find s) ∙ find_rows p s) h in
      bind_leads AllWithin (map_err wrap_internal find) (reap_each world now) s (λ e x. kept)
        (λ ds x.
          let found = find_ok p s ds (map_err-eq-ok wrap_internal find s x) in
          reap_each-Keeps now ds
            (subst (All (IsWithin cap)) (sym found) (keep-All cap p (rows s) h)) _ kept)
