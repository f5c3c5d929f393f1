-- ===== src/Organizations/Creation.antt =====
-- The creation of an organization with its first member, in internal/service/organization.go.
use base_go_api.Prelude.{
  ℕ, ◌==◌, ◌||◌, ◌≡◌, ap, sym, ◌∙◌, subst, true, false, Option, none, some, List, [], ◌∷◌, arith,
  length, Bool-cases, inl, inr,
}
use base_go_api.Prelude.Bytes.{Bytes}
use base_go_api.Prelude.Keeping.{bind_ends}
use base_go_api.Prelude.Outcome.{
  Outcome, ok, err, ◌>>=◌, pure, fail, map_err, map_err-eq-ok, map_err_state,
}
use base_go_api.Errors.{wrap_internal}
use base_go_api.Sql.Table.{Table, Laws, Apart, In}
use base_go_api.Organizations.Organization.{
  Organization, OrganizationMember, role_owner, is_membership, Enforcer, create, add_member,
}
use base_go_api.Organizations.Owned.{IsOwned, created-IsOwned}
use base_go_api.Organizations.Unmoved.{IsApart, check_slug-Keeps, give_role-Keeps}
use base_go_api.Organizations.Ownership.{Owned}
use base_go_api.Organizations.Service.{
  chosen, built, check_slug, give_role, found_organization, create_organization, invalid,
}

module _ {S : Type 0} (orgs : Table S Organization) (members : Table S OrganizationMember)
    (enforcer : Enforcer S) (laws_o : Laws orgs) (laws_m : Laws members)
    (apart_o : Apart orgs laws_o members) (apart_m : Apart members laws_m orgs)
    (apart_e : IsApart enforcer laws_o.rows laws_m.rows) where
  abbrev AreOwned : S → Type 0
  AreOwned = Owned orgs members enforcer laws_o laws_m apart_o apart_m apart_e

  -- An identifier that no organization has.
  abbrev pub IsFresh : ℕ → S → Type 0
  IsFresh id s = (p : Organization) → In p (laws_o.rows s) → (id == p.id) ≡ false

  -- What holds once a creation has succeeded.
  abbrev Ends : Outcome Organization × S → Type 0
  Ends r = (o : Organization) → r.0 ≡ ok o → AreOwned r.1

  found_organization-Ends :
      (id user : ℕ) (name slug text : Bytes) (s : S)
      → AreOwned s
      → IsFresh id s
      → Ends (found_organization orgs members enforcer id user name slug text s)
  unfolding found_organization create add_member
  found_organization-Ends id user name slug text s i fresh =
      let o = built id user name slug text in
      let member : OrganizationMember = record {
        organization_id = id;
        user_id = user;
        role = role_owner;
      } in
      let made = map_err wrap_internal (map_err wrap_internal (orgs.create o)) in
      let joined = map_err wrap_internal (map_err wrap_internal (members.create member)) in
      let given = give_role orgs members enforcer user role_owner id in
      let last = λ (u : Unit {0}). given >>= (λ _. pure o) in
      bind_ends Ends made (λ _. joined >>= last) s (λ e x p h. cc)
        (λ u x.
          bind_ends Ends joined last (made s).1 (λ e y p h. cc)
            (λ v y.
              bind_ends Ends given (λ _. pure o) (joined (made s).1).1 (λ e z p h. cc)
                (λ w z p h.
                  give_role-Keeps orgs members enforcer laws_o laws_m apart_o apart_m apart_e
                    IsOwned user role_owner id (joined (made s).1).1
                    (both o member s i fresh (ground arith) x y))))
    where
      both :
          (o : Organization) (member : OrganizationMember) (s : S)
          → AreOwned s
          → ((p : Organization) → In p (laws_o.rows s) → (o.id == p.id) ≡ false)
          → is_membership o.id o.owner_id member ≡ true
          → let made = map_err wrap_internal (map_err wrap_internal (orgs.create o)) in
            let joined = map_err wrap_internal (map_err wrap_internal (members.create member)) in
            (made s).0 ≡ ok tt → (joined (made s).1).0 ≡ ok tt → AreOwned (joined (made s).1).1
      both o member s i fresh fits x y =
          let w = wrap_internal in
          let creates = orgs.create o in
          let joins = members.create member in
          let t = (map_err w (map_err w creates) s).1 in
          let v = (map_err w (map_err w joins) t).1 in
          let to_t = map_err_state w (map_err w creates) s ∙ map_err_state w creates s in
          let to_v = map_err_state w (map_err w joins) t ∙ map_err_state w joins t in
          let made_ok = map_err-eq-ok w creates s (map_err-eq-ok w (map_err w creates) s x) in
          let joined_ok = map_err-eq-ok w joins t (map_err-eq-ok w (map_err w joins) t y) in
          let os : laws_o.rows v ≡ o ∷ laws_o.rows s =
            ap laws_o.rows to_v
            ∙ apart_o.create_apart member t
            ∙ ap laws_o.rows to_t
            ∙ laws_o.create_ok o s made_ok in
          let ms : laws_m.rows v ≡ member ∷ laws_m.rows s =
            ap laws_m.rows to_v
            ∙ laws_m.create_ok member t joined_ok
            ∙ ap (λ l. member ∷ l) (ap laws_m.rows to_t ∙ apart_m.create_apart o s) in
          subst (λ l. IsOwned l (laws_m.rows v)) (sym os)
            (subst (IsOwned (o ∷ laws_o.rows s)) (sym ms)
              (created-IsOwned (laws_o.rows s) (laws_m.rows s) o member fresh fits i))

  -- The creation reads before it writes, and what it reads leaves the fresh identifier fresh.
  abbrev Ready : ℕ → List Organization → List OrganizationMember → Type 0
  Ready id os ms = IsOwned os ms × ((p : Organization) → In p os → (id == p.id) ≡ false)

  pub create_organization-Ends :
      (id user : ℕ) (name slug : Bytes) (settings : Option (Outcome Bytes)) (s : S)
      → AreOwned s
      → IsFresh id s
      → Ends (create_organization orgs members enforcer id user name slug settings s)
  unfolding create_organization
  create_organization-Ends id user name slug settings s i fresh =
      let checked = check_slug orgs members enforcer slug in
      let ready =
        check_slug-Keeps orgs members enforcer laws_o laws_m apart_o apart_m apart_e (Ready id) slug
          s (i, fresh) in
      elim (Bool-cases ((length name == 0) || (length slug == 0))) [
        | inl missing ↦ rw missing (λ o h. cc)
        | inr fine ↦ rw fine (go settings ready)
      ]
    where
      go :
          (st : Option (Outcome Bytes))
          → Ready id
              (laws_o.rows (check_slug orgs members enforcer slug s).1)
              (laws_m.rows (check_slug orgs members enforcer slug s).1)
          → Ends (
              (check_slug orgs members enforcer slug >>= (λ _. elim (chosen [] st) [
                | err e ↦ fail e
                | ok text ↦ found_organization orgs members enforcer id user name slug text
              ]))
                s)
      go none ready =
          bind_ends Ends (check_slug orgs members enforcer slug)
            (λ _. found_organization orgs members enforcer id user name slug []) s (λ e x o h. cc)
            (λ u x. found_organization-Ends id user name slug [] _ ready.0 ready.1)
      go (some (ok text)) ready =
          bind_ends Ends (check_slug orgs members enforcer slug)
            (λ _. found_organization orgs members enforcer id user name slug text) s (λ e x o h. cc)
            (λ u x. found_organization-Ends id user name slug text _ ready.0 ready.1)
      go (some (err e)) ready =
          bind_ends Ends (check_slug orgs members enforcer slug) (λ _. fail invalid) s
            (λ e x o h. cc) (λ u x o h. cc)
