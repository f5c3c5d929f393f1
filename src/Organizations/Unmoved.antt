-- ===== src/Organizations/Unmoved.antt =====
-- The calls of internal/service/organization.go that change neither organizations nor members.
use base_go_api.Prelude.{ℕ, ◌==◌, ◌≡◌, sym, subst, Bool, not, List, [], ◌∷◌, if◌then◌else◌}
use base_go_api.Prelude.Bytes.{Bytes, bytes_eq, codes}
use base_go_api.Prelude.Keeping.{Keeps, bind-Keeps, map_err-Keeps, if-Keeps}
use base_go_api.Prelude.Outcome.{Outcome, ok, err, pure, fail, map_err, attempt}
use base_go_api.Errors.{forbidden, is_not_found, wrap_internal}
use base_go_api.Sql.Table.{Table, Laws, Apart}
use base_go_api.Sql.Results.{missing_or_internal}
use base_go_api.Organizations.Organization.{
  Organization, OrganizationMember, is_membership, Enforcer, find_by_id, find_by_slug, find_member,
  is_member,
}
use base_go_api.Organizations.Service.{
  actions_of, permit, judge_slug, check_slug, add_policies, give_role,
}

-- The enforcer keeps its rules in a table of its own.
pub record IsApart {S : Type 0} (enforcer : Enforcer S) (os : S → List Organization)
    (ms : S → List OrganizationMember) : Type 0 where
  pub enforce_orgs : (u d : ℕ) (o a : Bytes) (s : S) → os (enforcer.enforce u d o a s).1 ≡ os s
  pub enforce_members : (u d : ℕ) (o a : Bytes) (s : S) → ms (enforcer.enforce u d o a s).1 ≡ ms s
  pub add_role_orgs :
      (u : ℕ) (r : Bytes) (d : ℕ) (s : S) → os (enforcer.add_role_for_user u r d s).1 ≡ os s
  pub add_role_members :
      (u : ℕ) (r : Bytes) (d : ℕ) (s : S) → ms (enforcer.add_role_for_user u r d s).1 ≡ ms s
  pub remove_role_orgs :
      (u : ℕ) (r : Bytes) (d : ℕ) (s : S) → os (enforcer.remove_role_for_user u r d s).1 ≡ os s
  pub remove_role_members :
      (u : ℕ) (r : Bytes) (d : ℕ) (s : S) → ms (enforcer.remove_role_for_user u r d s).1 ≡ ms s
  pub add_policy_orgs :
      (r : Bytes) (d : ℕ) (o a : Bytes) (s : S) → os (enforcer.add_policy r d o a s).1 ≡ os s
  pub add_policy_members :
      (r : Bytes) (d : ℕ) (o a : Bytes) (s : S) → ms (enforcer.add_policy r d o a s).1 ≡ ms s

module _ {S : Type 0} (orgs : Table S Organization) (members : Table S OrganizationMember)
    (enforcer : Enforcer S) (laws_o : Laws orgs) (laws_m : Laws members)
    (apart_o : Apart orgs laws_o members) (apart_m : Apart members laws_m orgs)
    (apart_e : IsApart enforcer laws_o.rows laws_m.rows) where
  -- A property of the rows of the two tables, and the calls that change neither.
  module _ (Q : List Organization → List OrganizationMember → Type 0) where
    abbrev pub Of : S → Type 0
    Of s = Q (laws_o.rows s) (laws_m.rows s)

    pub moved :
        (s t : S) → laws_o.rows t ≡ laws_o.rows s → laws_m.rows t ≡ laws_m.rows s → Of s → Of t
    moved s t p q h =
        subst (λ os. Q os (laws_m.rows t)) (sym p) (subst (Q (laws_o.rows s)) (sym q) h)

    pub permit-Keeps :
        (user org : ℕ) (action : Bytes) → Keeps Of (permit orgs members enforcer user org action)
    unfolding permit
    permit-Keeps user org action =
        let asked = enforcer.enforce user org (codes "organization") action in
        bind-Keeps Of (map_err wrap_internal asked)
          (λ allowed. if not allowed then fail {A = Unit {0}} forbidden else pure tt)
          (map_err-Keeps Of wrap_internal asked (λ s h.
            moved s (asked s).1 (apart_e.enforce_orgs user org (codes "organization") action s)
              (apart_e.enforce_members user org (codes "organization") action s) h))
          (λ allowed.
            if-Keeps Of (not allowed) (fail {A = Unit {0}} forbidden) (pure tt) (λ s h. h)
              (λ s h. h))

    pub first-Keeps :
        (p : Organization → Bool) → Keeps Of (map_err missing_or_internal (orgs.first p))
    first-Keeps p =
        map_err-Keeps Of missing_or_internal (orgs.first p)
          (λ s h. moved s (orgs.first p s).1 (laws_o.first_rows p s) (apart_m.first_apart p s) h)

    pub find_by_id-Keeps : (id : ℕ) → Keeps Of (find_by_id orgs id)
    unfolding find_by_id
    find_by_id-Keeps id = first-Keeps (λ o. o.id == id)

    judge_slug-Keeps : (r : Outcome Organization) → Keeps Of (judge_slug orgs members enforcer r)
    unfolding judge_slug
    judge_slug-Keeps (ok o) = λ s h. h
    judge_slug-Keeps (err e) =
        if-Keeps Of (is_not_found e) (pure tt) (fail (wrap_internal e)) (λ s h. h) (λ s h. h)

    pub check_slug-Keeps : (slug : Bytes) → Keeps Of (check_slug orgs members enforcer slug)
    unfolding check_slug find_by_slug
    check_slug-Keeps slug =
        bind-Keeps Of
          (attempt (map_err missing_or_internal (orgs.first (λ o. bytes_eq o.slug slug))))
          (judge_slug orgs members enforcer) (first-Keeps (λ o. bytes_eq o.slug slug))
          judge_slug-Keeps

    pub find_member-Keeps : (org user : ℕ) → Keeps Of (find_member members org user)
    unfolding find_member
    find_member-Keeps org user =
        let p = is_membership org user in
        map_err-Keeps Of missing_or_internal (members.first p)
          (λ s h. moved s (members.first p s).1 (apart_o.first_apart p s) (laws_m.first_rows p s) h)

    pub is_member-Keeps : (org user : ℕ) → Keeps Of (is_member members org user)
    unfolding is_member
    is_member-Keeps org user =
        let p = is_membership org user in
        bind-Keeps Of (map_err wrap_internal (members.count_where p)) (λ n. pure (not (n == 0)))
          (map_err-Keeps Of wrap_internal (members.count_where p) (λ s h.
            moved s (members.count_where p s).1 (apart_o.count_where_apart p s)
              (laws_m.count_where_rows p s) h))
          (λ n s h. h)

    add_policies-Keeps :
        (role : Bytes) (org : ℕ) (actions : List Bytes)
        → Keeps Of (add_policies orgs members enforcer role org actions)
    unfolding add_policies
    add_policies-Keeps role org [] s h = h
    add_policies-Keeps role org (a ∷ rest) s h =
        add_policies-Keeps role org rest (enforcer.add_policy role org (codes "organization") a s).1
          (moved s _ (apart_e.add_policy_orgs role org (codes "organization") a s)
            (apart_e.add_policy_members role org (codes "organization") a s) h)

    pub give_role-Keeps :
        (user : ℕ) (role : Bytes) (org : ℕ)
        → Keeps Of (give_role orgs members enforcer user role org)
    unfolding give_role
    give_role-Keeps user role org s h =
        add_policies-Keeps role org (actions_of role) (enforcer.add_role_for_user user role org s).1
          (moved s _ (apart_e.add_role_orgs user role org s)
            (apart_e.add_role_members user role org s) h)
