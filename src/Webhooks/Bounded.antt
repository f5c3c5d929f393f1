-- ===== src/Webhooks/Bounded.antt =====
-- The attempts of a delivery and their limit: the writes of the worker of
-- internal/service/webhook_worker.go, of its reaper and of internal/service/webhook.go.
use base_go_api.Prelude.{
  ℕ, ◌+◌, ◌<◌, ◌≤◌, ◌≡◌, ap, sym, subst, Bool, true, List, [], ◌∷◌, All, keep, arith, ◌==◌, inl,
  inr, Bool-cases, ==_iff,
}
use base_go_api.Prelude.Bytes.{Bytes}
use base_go_api.Sql.Table.{Laws, In, updated}
use base_go_api.Webhooks.Delivery.{Webhook, WebhookDelivery, can_retry}
use base_go_api.Webhooks.Repository.{World}

-- The limit of a delivery is the one of its identifier, and its attempt is between 1 and the limit.
abbrev pub IsWithin : (ℕ → ℕ) → WebhookDelivery → Type 0
IsWithin cap d =
    (d.max_attempts ≡ cap d.id) × (1 ≤ d.attempt_number) × (d.attempt_number ≤ d.max_attempts)

pub row_bound :
    (cap : ℕ → ℕ) (ds : List WebhookDelivery) (d : WebhookDelivery)
    → All (IsWithin cap) ds
    → In d ds
    → IsWithin cap d
row_bound cap [] d all there = elim there [ ]
row_bound cap (e ∷ ds) d (one, all) (inl same) = subst (IsWithin cap) (sym same) one
row_bound cap (e ∷ ds) d (one, all) (inr there) = row_bound cap ds d all there

-- A change of the rows of one identifier that keeps the bound of each.
abbrev pub Safe : (ℕ → ℕ) → ℕ → (WebhookDelivery → WebhookDelivery) → Type 0
Safe cap id change = (d : WebhookDelivery) → d.id ≡ id → IsWithin cap d → IsWithin cap (change d)

pub updated-All :
    (cap : ℕ → ℕ) (id : ℕ) (change : WebhookDelivery → WebhookDelivery) (ds : List WebhookDelivery)
    → Safe cap id change
    → All (IsWithin cap) ds
    → All (IsWithin cap) (updated (λ d. d.id == id) change ds)
updated-All cap id change [] safe all = tt
updated-All cap id change (d ∷ ds) safe (one, all) = elim (Bool-cases (d.id == id)) [
  | inl named ↦
      rw named (safe d ((==_iff d.id id).0 named) one, updated-All cap id change ds safe all)
  | inr other ↦ rw other (one, updated-All cap id change ds safe all)
]

pub keep-All :
    (cap : ℕ → ℕ) (p : WebhookDelivery → Bool) (ds : List WebhookDelivery)
    → All (IsWithin cap) ds
    → All (IsWithin cap) (keep p ds)
keep-All cap p [] all = tt
keep-All cap p (d ∷ ds) (one, all) = elim (Bool-cases (p d)) [
  | inl kept ↦ rw kept (one, keep-All cap p ds all)
  | inr gone ↦ rw gone (keep-All cap p ds all)
]

-- The bounds after another attempt of a delivery that was read.
pub next_attempt :
    (cap : ℕ → ℕ) (d r : WebhookDelivery)
    → IsWithin cap d
    → IsWithin cap r
    → r.id ≡ d.id
    → can_retry d ≡ true
    → (r.max_attempts ≡ cap r.id)
      × (1 ≤ d.attempt_number + 1)
      × (d.attempt_number + 1 ≤ r.max_attempts)
next_attempt cap d r (own, low', high') (limit_is, low, high) same may =
    let shared = ap cap same in
    let below : d.attempt_number < d.max_attempts = ground arith in
    (limit_is, omega arith, omega arith)

-- What is not a statement on the deliveries leaves their rows.
pub record IsApart {S : Type 0} (world : World S) (laws : Laws world.deliveries) : Type 0 where
  pub first_apart :
      (p : Webhook → Bool) (s : S) → laws.rows (world.webhooks.first p s).1 ≡ laws.rows s
  pub retry_apart : (id at : ℕ) (s : S) → laws.rows (world.enqueue_retry id at s).1 ≡ laws.rows s
  pub remove_apart :
      (id : ℕ) (s : S) → laws.rows (world.remove_from_processing id s).1 ≡ laws.rows s
  pub allow_apart : (id : ℕ) (s : S) → laws.rows (world.allow id s).1 ≡ laws.rows s
  pub post_apart :
      (w : Webhook) (d : WebhookDelivery) (b : Bytes) (s : S)
      → laws.rows (world.post w d b s).1 ≡ laws.rows s
