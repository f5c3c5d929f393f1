-- ===== src/Organizations/Ownership.antt =====
-- The owner of an organization as its member, under the calls of internal/service/organization.go.
use base_go_api.Prelude.{
  ℕ, ◌==◌, ◌&&◌, ◌≡◌, refl, sym, subst, true, false, not, Option, none, some, List, length,
  Bool-cases, inl, inr, if◌then◌else◌,
}
use base_go_api.Prelude.Bytes.{Bytes, bytes_eq, codes}
use base_go_api.Prelude.Keeping.{Keeps, bind-Keeps, map_err-Keeps, bind_leads}
use base_go_api.Prelude.Outcome.{Outcome, ok, err, ◌>>=◌, pure, map_err, map_err_state}
use base_go_api.Errors.{wrap_internal}
use base_go_api.Sql.Table.{Table, Laws, Apart, In}
use base_go_api.Sql.Effects.{first-ok}
use base_go_api.Sql.Results.{missing_or_internal, at_least_one}
use base_go_api.Sessions.Kept.{at_least_one-Keeps}
use base_go_api.Organizations.Organization.{
  Organization, OrganizationMember, Enforcer, find_by_id, update, soft_delete,
}
use base_go_api.Organizations.Owned.{IsOwned, keep-IsOwned, saved-IsOwned}
use base_go_api.Organizations.Unmoved.{
  IsApart, moved, permit-Keeps, find_by_id-Keeps, check_slug-Keeps,
}
use base_go_api.Organizations.Service.{
  changed, permit, check_slug, save_changed, change, update_organization, delete_organization,
}

module _ {S : Type 0} (orgs : Table S Organization) (members : Table S OrganizationMember)
    (enforcer : Enforcer S) (laws_o : Laws orgs) (laws_m : Laws members)
    (apart_o : Apart orgs laws_o members) (apart_m : Apart members laws_m orgs)
    (apart_e : IsApart enforcer laws_o.rows laws_m.rows) where
  abbrev pub Owned : S → Type 0
  Owned s = IsOwned (laws_o.rows s) (laws_m.rows s)

  -- The same, with an organization that has been read.
  abbrev pub Read : Organization → List Organization → List OrganizationMember → Type 0
  Read o os ms = IsOwned os ms × In o os

  abbrev pub ReadOf : Organization → S → Type 0
  ReadOf o s = Read o (laws_o.rows s) (laws_m.rows s)

  -- What an organization that was found is.
  pub found :
      (id : ℕ) (s : S) {o : Organization}
      → (find_by_id orgs id s).0 ≡ ok o
      → Owned s
      → ((o.id == id) ≡ true) × ReadOf o (find_by_id orgs id s).1
  unfolding find_by_id
  found id s {o} h i =
      let (same, named, there) = first-ok orgs laws_o missing_or_internal _ s h in
      (
        named,
        (
          find_by_id-Keeps orgs members enforcer laws_o laws_m apart_o apart_m apart_e IsOwned id s
              i,
          subst (In o) (sym same) there,
        ),
      )

  update_leads :
      (o w : Organization) (s : S)
      → w.id ≡ o.id
      → w.owner_id ≡ o.owner_id
      → ReadOf o s
      → Owned (update orgs w s).1
  unfolding update
  update_leads o w s id owner (i, there) =
      let p = λ (x : Organization). x.id == w.id in
      let m = orgs.update p (λ _. w) in
      bind_leads Owned (map_err wrap_internal m) at_least_one s
        (λ e x. subst Owned (sym (map_err_state wrap_internal m s)) (go (m s).0 refl))
        (λ n x.
          at_least_one-Keeps Owned n (map_err wrap_internal m s).1
            (subst Owned (sym (map_err_state wrap_internal m s)) (go (m s).0 refl)))
    where
      go :
          (r : Outcome ℕ)
          → (orgs.update (λ x. x.id == w.id) (λ _. w) s).0 ≡ r
          → Owned (orgs.update (λ x. x.id == w.id) (λ _. w) s).1
      go (ok n) e =
          subst (λ ms. IsOwned (laws_o.rows (orgs.update (λ x. x.id == w.id) (λ _. w) s).1) ms)
            (sym (apart_m.update_apart (λ x. x.id == w.id) (λ _. w) s))
            (subst (λ os. IsOwned os (laws_m.rows s))
              (sym (laws_o.update_ok (λ x. x.id == w.id) (λ _. w) s n e).1)
              (saved-IsOwned (laws_o.rows s) (laws_m.rows s) o w there id owner i))
      go (err x) e =
          moved orgs members enforcer laws_o laws_m apart_o apart_m apart_e IsOwned s _
            (laws_o.update_err (λ x. x.id == w.id) (λ _. w) s x e)
            (apart_m.update_apart (λ x. x.id == w.id) (λ _. w) s) i

  saved_leads :
      (name slug text : Bytes) (o : Organization) (s : S)
      → ReadOf o s
      → let w = changed name slug text o in Owned ((update orgs w >>= (λ _. pure w)) s).1
  saved_leads name slug text o s i =
      let w = changed name slug text o in
      bind_leads Owned (update orgs w) (λ _. pure w) s (λ e x. update_leads o w s refl refl i)
        (λ u x. update_leads o w s refl refl i)

  save_changed_leads :
      (name slug : Bytes) (settings : Option (Outcome Bytes)) (o : Organization) (s : S)
      → ReadOf o s
      → Owned (save_changed orgs members enforcer name slug settings o s).1
  unfolding save_changed
  save_changed_leads name slug none o s i = saved_leads name slug o.settings o s i
  save_changed_leads name slug (some (ok text)) o s i = saved_leads name slug text o s i
  save_changed_leads name slug (some (err e)) o s i = i.0

  change_leads :
      (name slug : Bytes) (settings : Option (Outcome Bytes)) (o : Organization) (s : S)
      → ReadOf o s
      → Owned (change orgs members enforcer name slug settings o s).1
  unfolding change
  change_leads name slug settings o s i =
      let save = save_changed orgs members enforcer name slug settings o in
      let checked = check_slug orgs members enforcer slug in
      let still =
        check_slug-Keeps orgs members enforcer laws_o laws_m apart_o apart_m apart_e (Read o) slug s
          i in
      elim (Bool-cases (not (length slug == 0) && not (bytes_eq slug o.slug))) [
        | inl moves ↦ rw moves (
            bind_leads Owned checked (λ _. save) s (λ e x. still.0)
              (λ u x. save_changed_leads name slug settings o (checked s).1 still))
        | inr stays ↦ rw stays (save_changed_leads name slug settings o s i)
      ]

  pub update_organization-Keeps :
      (user org : ℕ) (name slug : Bytes) (settings : Option (Outcome Bytes))
      → Keeps Owned (update_organization orgs members enforcer user org name slug settings)
  unfolding update_organization
  update_organization-Keeps user org name slug settings =
      let changes = change orgs members enforcer name slug settings in
      bind-Keeps Owned (permit orgs members enforcer user org (codes "manage"))
        (λ _. find_by_id orgs org >>= changes)
        (permit-Keeps orgs members enforcer laws_o laws_m apart_o apart_m apart_e IsOwned user org
          (codes "manage"))
        (λ u s i.
          bind_leads Owned (find_by_id orgs org) changes s
            (λ e x.
              find_by_id-Keeps orgs members enforcer laws_o laws_m apart_o apart_m apart_e IsOwned
                org s i)
            (λ o x. change_leads name slug settings o _ (found org s x i).1))

  -- A row written or deleted, with the number of rows looked at.
  soft_delete-Keeps : (id : ℕ) → Keeps Owned (soft_delete orgs id)
  unfolding soft_delete
  soft_delete-Keeps id =
      let m = orgs.delete (λ o. o.id == id) in
      bind-Keeps Owned (map_err wrap_internal m) at_least_one
        (map_err-Keeps Owned wrap_internal m (λ s i. go s i (m s).0 refl))
        (at_least_one-Keeps Owned)
    where
      go :
          (s : S)
          → Owned s
          → (r : Outcome ℕ) → (orgs.delete (λ o. o.id == id) s).0 ≡ r
          → Owned (orgs.delete (λ o. o.id == id) s).1
      go s i (ok n) e =
          subst (λ ms. IsOwned (laws_o.rows (orgs.delete (λ o. o.id == id) s).1) ms)
            (sym (apart_m.delete_apart (λ o. o.id == id) s))
            (subst (λ os. IsOwned os (laws_m.rows s))
              (sym (laws_o.delete_ok (λ o. o.id == id) s n e))
              (keep-IsOwned (λ o. if o.id == id then false else true) (laws_o.rows s)
                (laws_m.rows s) i))
      go s i (err x) e =
          moved orgs members enforcer laws_o laws_m apart_o apart_m apart_e IsOwned s _
            (laws_o.delete_err (λ o. o.id == id) s x e) (apart_m.delete_apart (λ o. o.id == id) s) i

  pub delete_organization-Keeps :
      (user org : ℕ) → Keeps Owned (delete_organization orgs members enforcer user org)
  unfolding delete_organization
  delete_organization-Keeps user org =
      bind-Keeps Owned (permit orgs members enforcer user org (codes "manage"))
        (λ _. find_by_id orgs org >>= λ _. soft_delete orgs org)
        (permit-Keeps orgs members enforcer laws_o laws_m apart_o apart_m apart_e IsOwned user org
          (codes "manage"))
        (λ u.
          bind-Keeps Owned (find_by_id orgs org) (λ _. soft_delete orgs org)
            (find_by_id-Keeps orgs members enforcer laws_o laws_m apart_o apart_m apart_e IsOwned
              org)
            (λ o. soft_delete-Keeps org))
