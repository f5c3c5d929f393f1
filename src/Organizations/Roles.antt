-- ===== src/Organizations/Roles.antt =====
-- The rules that AddMember of internal/service/organization.go gives the enforcer for a new member.
use base_go_api.Prelude.{
  ℕ, ◌==◌, ◌&&◌, ◌≡◌, refl, ap, ◌∙◌, Bool, true, false, not, List, [], ◌∷◌, any, All, arith,
  Bool-cases, inl, inr, if◌then◌else◌,
}
use base_go_api.Prelude.Bytes.{Bytes, eq_of_bytes_eq, codes}
use base_go_api.Prelude.Outcome.{Outcome, ok, ◌>>=◌, pure, map_err, fail}
use base_go_api.Prelude.Keeping.{bind_ends}
use base_go_api.Errors.{wrap_internal}
use base_go_api.Sql.Table.{Table}
use base_go_api.Organizations.Organization.{
  Organization, OrganizationMember, is_valid_role, Grant, Rule, is_grant, is_rule, is_allowed,
  Enforcer, Reliable, find_by_id, add_member, is_member,
}
use base_go_api.Organizations.Service.{
  actions_of, permit, add_policies, give_role, insert_member, add_organization_member, invalid,
}

granted_rule :
    (user : ℕ) (role : Bytes) (dom : ℕ) (object action : Bytes) (gs : List Grant) (rs : List Rule)
    → any (is_grant user role dom) gs ≡ true
    → any (is_rule role dom object action) rs ≡ true
    → is_allowed gs rs user dom object action ≡ true
unfolding is_allowed
granted_rule user role dom object action [] rs h k = cc
granted_rule user role dom object action (g ∷ gs) rs h k =
    let further = granted_rule user role dom object action gs rs in
    elim (Bool-cases (is_grant user role dom g)) [
      | inl fits ↦
          let same : g.granted ≡ role = eq_of_bytes_eq g.granted role (ground arith) in
          let inner : any (is_rule g.granted dom object action) rs ≡ true =
            ap (λ x. any (is_rule x dom object action) rs) same ∙ k in
          ground (arith, inner)
      | inr other ↦
          let rest : any (is_grant user role dom) gs ≡ true = ground arith in
          let there = further rest k in
          elim (Bool-cases
            (g.user == user && (g.domain == dom && any (is_rule g.granted dom object action) rs))) [
              | inl yes_too ↦ rw yes_too refl
              | inr not_this ↦ rw not_this there
            ]
    ]

module _ {S : Type 0} (orgs : Table S Organization) (members : Table S OrganizationMember)
    (enforcer : Enforcer S) (sound : Reliable enforcer) where
  open sound use {
    grants, rules, enforce_runs, role_added, policy_grants, policy_added, policy_keeps,
  }

  add_policies_grants :
      (role : Bytes) (org : ℕ) (actions : List Bytes) (s : S)
      → grants (add_policies orgs members enforcer role org actions s).1 ≡ grants s
  unfolding add_policies
  add_policies_grants role org [] s = refl
  add_policies_grants role org (a ∷ rest) s =
      let s1 = (enforcer.add_policy role org (codes "organization") a s).1 in
      add_policies_grants role org rest s1 ∙ policy_grants role org (codes "organization") a s

  add_policies_keeps :
      (p : Rule → Bool) (role : Bytes) (org : ℕ) (actions : List Bytes) (s : S)
      → any p (rules s) ≡ true
      → any p (rules (add_policies orgs members enforcer role org actions s).1) ≡ true
  unfolding add_policies
  add_policies_keeps p role org [] s h = h
  add_policies_keeps p role org (a ∷ rest) s h =
      let s1 = (enforcer.add_policy role org (codes "organization") a s).1 in
      add_policies_keeps p role org rest s1 (policy_keeps p role org (codes "organization") a s h)

  add_policies_adds :
      (role : Bytes) (org : ℕ) (actions : List Bytes) (s : S)
      → All
          (λ a.
            any
              (is_rule role org (codes "organization") a)
              (rules (add_policies orgs members enforcer role org actions s).1)
            ≡ true)
          actions
  unfolding add_policies
  add_policies_adds role org [] s = tt
  add_policies_adds role org (a ∷ rest) s =
      let s1 = (enforcer.add_policy role org (codes "organization") a s).1 in
      (
        add_policies_keeps (is_rule role org (codes "organization") a) role org rest s1
            (policy_added role org (codes "organization") a s),
        add_policies_adds role org rest s1,
      )

  -- The enforcer lets the user do each of these actions in the organization.
  abbrev pub May : ℕ → ℕ → List Bytes → S → Type 0
  May user org actions s =
      All (λ a. (enforcer.enforce user org (codes "organization") a s).0 ≡ ok true) actions

  rules-May :
      (user : ℕ) (role : Bytes) (org : ℕ) (actions : List Bytes) (s : S)
      → any (is_grant user role org) (grants s) ≡ true
      → All (λ a. any (is_rule role org (codes "organization") a) (rules s) ≡ true) actions
      → May user org actions s
  rules-May user role org [] s g h = tt
  rules-May user role org (a ∷ rest) s g h = (
    enforce_runs user org (codes "organization") a s
        ∙ ap ok (granted_rule user role org (codes "organization") a (grants s) (rules s) g h.0),
    rules-May user role org rest s g h.1,
  )

  give_role-May :
      (user : ℕ) (role : Bytes) (org : ℕ) (s : S)
      → May user org (actions_of role) (give_role orgs members enforcer user role org s).1
  unfolding give_role
  give_role-May user role org s =
      let s1 = (enforcer.add_role_for_user user role org s).1 in
      rules-May user role org (actions_of role) _
        (ap (any (is_grant user role org)) (add_policies_grants role org (actions_of role) s1)
          ∙ role_added user role org s)
        (add_policies_adds role org (actions_of role) s1)

  -- What holds once a call has succeeded.
  abbrev Ends : {A : Type 0} → ℕ → ℕ → Bytes → Outcome A × S → Type 0
  Ends {A} user org role r = (a : A) → r.0 ≡ ok a → May user org (actions_of role) r.1

  insert_member-May :
      (org user : ℕ) (role : Bytes) (already : Bool) (s : S)
      → Ends user org role (insert_member orgs members enforcer org user role already s)
  unfolding insert_member
  insert_member-May org user role true s = λ a h. cc
  insert_member-May org user role false s =
      let member : OrganizationMember = record {
        organization_id = org;
        user_id = user;
        role = role;
      } in
      let added = map_err wrap_internal (add_member members member) in
      let given = give_role orgs members enforcer user role org in
      bind_ends (Ends user org role) added (λ _. given >>= (λ _. pure member)) s (λ e x a h. cc)
        (λ u x.
          bind_ends (Ends {A = OrganizationMember} user org role) given (λ _. pure member)
            (added s).1 (λ e y a h. cc) (λ v y a h. give_role-May user role org (added s).1))

  -- On an enforcer that reports no error: once AddMember has succeeded, the new member may do in the
  -- organization what its role lists, whatever the role of the caller is.
  pub add_organization_member-May :
      (user org newcomer : ℕ) (role : Bytes) (s : S) {m : OrganizationMember}
      → (add_organization_member orgs members enforcer user org newcomer role s).0 ≡ ok m
      → May newcomer org
          (actions_of role)
          (add_organization_member orgs members enforcer user org newcomer role s).1
  unfolding add_organization_member
  add_organization_member-May user org newcomer role s {m} h =
      let insert = insert_member orgs members enforcer org newcomer role in
      let counted = map_err wrap_internal (is_member members org newcomer) in
      let looked = find_by_id orgs org >>= λ _. counted >>= insert in
      let checked = permit orgs members enforcer user org (codes "invite") in
      bind_ends (Ends newcomer org role) checked
        (λ _. if not (is_valid_role role) then fail invalid else looked) s (λ e x a k. cc)
        (λ u x. elim (Bool-cases (not (is_valid_role role))) [
          | inl wrong ↦ rw wrong (λ a k. cc)
          | inr right ↦ rw right (
              bind_ends (Ends newcomer org role) (find_by_id orgs org) (λ _. counted >>= insert)
                (checked s).1 (λ e y a k. cc)
                (λ o y.
                  bind_ends (Ends newcomer org role) counted insert
                    (find_by_id orgs org (checked s).1).1 (λ e z a k. cc)
                    (λ b z. insert_member-May org newcomer role b _)))
        ])
        m h
