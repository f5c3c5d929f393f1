-- ===== src/Webhooks/Found.antt =====
-- Reading a delivery: FindByID of internal/repository/webhook_delivery.go.
use base_go_api.Prelude.{ℕ, ◌≡◌, ap, ◌∙◌, ◌==◌}
use base_go_api.Prelude.Outcome.{ok, map_err_state}
use base_go_api.Sql.Table.{Laws, In}
use base_go_api.Sql.Effects.{first-ok}
use base_go_api.Sql.Results.{missing_or_internal}
use base_go_api.Webhooks.Delivery.{WebhookDelivery}
use base_go_api.Webhooks.Repository.{World, find_delivery}

module _ {S : Type 0} (world : World S) (laws : Laws world.deliveries) where
  open laws use {rows, first_rows}

  pub find_delivery_rows : (id : ℕ) (s : S) → rows (find_delivery world id s).1 ≡ rows s
  unfolding find_delivery
  find_delivery_rows id s =
      ap rows (map_err_state missing_or_internal (world.deliveries.first (λ d. d.id == id)) s)
      ∙ first_rows (λ d. d.id == id) s

  pub find_delivery-In :
      (id : ℕ) (s : S) {d : WebhookDelivery} → (find_delivery world id s).0 ≡ ok d → In d (rows s)
  unfolding find_delivery
  find_delivery-In id s h =
      (first-ok world.deliveries laws missing_or_internal (λ d. d.id == id) s h).2
