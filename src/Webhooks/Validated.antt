-- ===== src/Webhooks/Validated.antt =====
-- Which URL and which secret a webhook has after Create and Update of internal/service/webhook.go.
use base_go_api.Prelude.{
  ℕ, ◌||◌, ◌≡◌, ◌⊎◌, refl, ap, sym, ◌∙◌, Bool, true, false, not, Option, some, inl, inr, Bool-cases,
  Option-cases, arith,
}
use base_go_api.Prelude.Bytes.{Bytes, bytes_eq, eq_of_bytes_eq}
use base_go_api.Prelude.Outcome.{Outcome, ok, err, Call, pure, map_err, ◌>>◌, >>=-eq-ok}
use base_go_api.Errors.{wrap_internal}
use base_go_api.Webhooks.Delivery.{Webhook}
use base_go_api.Webhooks.Repository.{World, find_webhook}
use base_go_api.Webhooks.Service.{validate_events}
use base_go_api.Webhooks.Manage.{
  CreateRequest, UpdateRequest, Guard, accepts, invalid, built, with_request, url_changed,
  refused_name, refused_url, refused_events, refused, bad_name, create, save, revise, update,
}

-- From one webhook to the next: the URL and the secret stay, or the URL is accepted and the secret drawn.
abbrev pub IsGuarded : Guard → Webhook → Webhook → Type 0
IsGuarded g w v =
    ((v.url ≡ w.url) × (v.secret ≡ w.secret))
    ⊎ ((accepts g v.url ≡ true) × (g.secret ≡ ok v.secret))

-- A call that ends with a value gives that value.
ends_with :
    {S A : Type 0} (m : Call S (Unit {0})) (a : A) (s : S) {b : A}
    → ((m >> pure a) s).0 ≡ ok b
    → b ≡ a
ends_with m a s h = let (u, ran, same, last) = >>=-eq-ok m (λ x. pure a) s h in cc

middle_false : (a b c : Bool) → (a || (b || c)) ≡ false → b ≡ false
middle_false a b c h = ground arith

double_negation : (b : Bool) → not b ≡ false → b ≡ true
double_negation b h = ground arith

accepted_url :
    (g : Guard) (r : UpdateRequest) (u : Bytes)
    → r.url ≡ some u
    → refused g r ≡ false
    → accepts g u ≡ true
accepted_url g r u given fine = double_negation (accepts g u) (
    sym (ap (refused_url g) given)
    ∙ middle_false (refused_name r) (refused_url g r.url) (refused_events r) fine)

moved_url :
    (r : UpdateRequest) (w : Webhook)
    → url_changed r w ≡ true
    → (u : Bytes) × (r.url ≡ some u) × ((with_request r w).url ≡ u)
moved_url r w moved = elim (Option-cases r.url) [
  | inl nothing ↦
      let never : false ≡ true = sym (rw nothing refl) ∙ moved in
      let absurdly : ⊥ = cc in elim absurdly [ ]
  | inr (u, given) ↦ (u, given, rw given refl)
]

kept_url :
    (r : UpdateRequest) (w : Webhook) → url_changed r w ≡ false → (with_request r w).url ≡ w.url
kept_url r w same = elim (Option-cases r.url) [
  | inl nothing ↦ rw nothing refl
  | inr (u, given) ↦
      let differs : not (bytes_eq u w.url) ≡ false = sym (rw given refl) ∙ same in
      rw given (eq_of_bytes_eq u w.url (double_negation (bytes_eq u w.url) differs))
]

module _ {S : Type 0} (world : World S) where
  -- The two ends of an update whose fields are fine.
  revised_kept :
      (g : Guard) (r : UpdateRequest) (w v : Webhook) (s : S)
      → refused g r ≡ false
      → url_changed r w ≡ false
      → (revise world g r w s).0 ≡ ok v
      → v ≡ with_request r w
  unfolding revise
  revised_kept g r w v s fine same h =
      ends_with (map_err wrap_internal (save world (with_request r w))) (with_request r w) s
        (sym (rw (fine, same) refl) ∙ h)

  revised_moved :
      (g : Guard) (r : UpdateRequest) (w v : Webhook) (s : S)
      → refused g r ≡ false
      → url_changed r w ≡ true
      → (revise world g r w s).0 ≡ ok v
      → (x : Bytes) × (g.secret ≡ ok x) × (v ≡ record (with_request r w) { secret = x })
  unfolding revise
  revised_moved g r w v s fine moved h = go g.secret refl
    where
      go :
          (o : Outcome Bytes)
          → g.secret ≡ o
          → (x : Bytes) × (g.secret ≡ ok x) × (v ≡ record (with_request r w) { secret = x })
      go (ok x) e =
          let next = record (with_request r w) { secret = x } in
          (
            x,
            e,
            ends_with (map_err wrap_internal (save world next)) next s
                (sym (rw (fine, moved, e) refl) ∙ h),
          )
      go (err x) e =
          let ended : err (wrap_internal x) ≡ ok v = sym (rw (fine, moved, e) refl) ∙ h in
          let never : ⊥ = cc in elim never [ ]

  revised_refused :
      (g : Guard) (r : UpdateRequest) (w : Webhook) (s : S)
      → refused g r ≡ true
      → (revise world g r w s).0 ≡ err invalid
  unfolding revise
  revised_refused g r w s bad = rw bad refl

  revise-ok :
      (g : Guard) (r : UpdateRequest) (w v : Webhook) (s : S)
      → (revise world g r w s).0 ≡ ok v
      → IsGuarded g w v
  revise-ok g r w v s h = elim (Bool-cases (refused g r)) [
    | inl bad ↦
        let ended : err invalid ≡ ok v = sym (revised_refused g r w s bad) ∙ h in
        let never : ⊥ = cc in elim never [ ]
    | inr fine ↦ elim (Bool-cases (url_changed r w)) [
      | inl moved ↦
          let (x, drawn, it) = revised_moved g r w v s fine moved h in
          let (u, given, url) = moved_url r w moved in
          inr (
            ap (accepts g) (ap (λ y. y.url) it ∙ url) ∙ accepted_url g r u given fine,
            drawn ∙ ap ok (sym (ap (λ y. y.secret) it)),
          )
      | inr same ↦
          let it = revised_kept g r w v s fine same h in
          inl (ap (λ y. y.url) it ∙ kept_url r w same, ap (λ y. y.secret) it)
    ]
  ]

  -- A webhook that Create returns has a URL that the validator accepts and the secret that was drawn.
  pub create-ok :
      (g : Guard) (id : ℕ) (org : Option ℕ) (c : CreateRequest) (v : Webhook) (s : S)
      → (create world g id org c s).0 ≡ ok v
      → (accepts g v.url ≡ true) × (g.secret ≡ ok v.secret)
  unfolding create
  create-ok g id org c v s h = elim (Bool-cases (bad_name c.name)) [
    | inl bad ↦
        let ended : err invalid ≡ ok v = sym (rw bad refl) ∙ h in
        let never : ⊥ = cc in elim never [ ]
    | inr named ↦ elim (Bool-cases (not (accepts g c.url))) [
      | inl bad ↦
          let ended : err invalid ≡ ok v = sym (rw (named, bad) refl) ∙ h in
          let never : ⊥ = cc in elim never [ ]
      | inr fine ↦ go (validate_events c.events) g.secret refl refl named fine
    ]
  ]
    where
      go :
          (events : Outcome (Unit {0})) (drawn : Outcome Bytes)
          → validate_events c.events ≡ events
          → g.secret ≡ drawn
          → bad_name c.name ≡ false
          → not (accepts g c.url) ≡ false
          → (accepts g v.url ≡ true) × (g.secret ≡ ok v.secret)
      go (err x) drawn checked e named fine =
          let ended : err x ≡ ok v = sym (rw (named, fine, checked) refl) ∙ h in
          let never : ⊥ = cc in elim never [ ]
      go (ok u) (err x) checked e named fine =
          let ended : err (wrap_internal x) ≡ ok v = sym (rw (named, fine, checked, e) refl) ∙ h in
          let never : ⊥ = cc in elim never [ ]
      go (ok u) (ok x) checked e named fine =
          let it =
            ends_with
              (map_err wrap_internal
                (map_err wrap_internal (world.webhooks.create (built c id org x))))
              (built c id org x) s (sym (rw (named, fine, checked, e) refl) ∙ h) in
          (
            ap (λ y. accepts g y.url) it ∙ double_negation (accepts g c.url) fine,
            e ∙ ap ok (sym (ap (λ y. y.secret) it)),
          )

  -- An update that succeeds has read a webhook, and its result either has the URL and the secret of that
  -- one, or a URL that the validator accepts and the secret that was drawn.
  pub update-ok :
      (g : Guard) (id : ℕ) (r : UpdateRequest) (v : Webhook) (s : S)
      → (update world g id r s).0 ≡ ok v
      → (w : Webhook) × ((find_webhook world id s).0 ≡ ok w) × IsGuarded g w v
  unfolding update
  update-ok g id r v s h =
      let (w, found, same, last) = >>=-eq-ok (find_webhook world id) (revise world g r) s h in
      (w, found, revise-ok g r w v (find_webhook world id s).1 last)
