-- ===== src/Webhooks/Named.antt =====
-- The rows of deliveries under changes that keep the identifier, as each update of
-- internal/repository/webhook_delivery.go does.
use base_go_api.Prelude.{ℕ, ◌==◌, ◌≡◌, refl, Bool, List, [], ◌∷◌, arith}
use base_go_api.Sql.Table.{count, updated}
use base_go_api.Webhooks.Delivery.{WebhookDelivery}
use base_go_api.Webhooks.Worker.{unchanged}

abbrev pub has_name : ℕ → WebhookDelivery → Bool
has_name id d = d.id == id

abbrev pub SameName : (WebhookDelivery → WebhookDelivery) → Type 0
SameName g = (d : WebhookDelivery) → (g d).id ≡ d.id

pub updated-updated :
    (id : ℕ) (g h : WebhookDelivery → WebhookDelivery) (ds : List WebhookDelivery)
    → SameName g
    → updated (has_name id) h (updated (has_name id) g ds) ≡ updated (has_name id) (λ d. h (g d)) ds
updated-updated id g h [] same = refl
updated-updated id g h (d ∷ ds) same =
    let name = same d in ground (arith, updated-updated id g h ds same)

pub count-updated :
    (id : ℕ) (g : WebhookDelivery → WebhookDelivery) (ds : List WebhookDelivery)
    → SameName g
    → count (has_name id) (updated (has_name id) g ds) ≡ count (has_name id) ds
count-updated id g [] same = refl
count-updated id g (d ∷ ds) same = let name = same d in ground (arith, count-updated id g ds same)

pub updated-unchanged :
    (id : ℕ) (ds : List WebhookDelivery) → updated (has_name id) unchanged ds ≡ ds
updated-unchanged id [] = refl
updated-unchanged id (d ∷ ds) = ground (arith, updated-unchanged id ds)
