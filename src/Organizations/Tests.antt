-- ===== src/Organizations/Tests.antt =====
-- Organizations on a small database in memory.
use base_go_api.Prelude.{ℕ, ◌≡◌, refl, Bool, true, List, [], ◌∷◌, any, arith, none}
use base_go_api.Prelude.Bytes.{Bytes, codes, bytes_eq_refl}
use base_go_api.Prelude.Outcome.{Outcome, ok}
use base_go_api.Sql.Table.{Table, Laws, Apart}
use base_go_api.Sql.Memory.{list_table, list-Laws}
use base_go_api.Sql.Results.{missing_or_internal}
use base_go_api.Errors.{is_not_found}
use base_go_api.Organizations.Organization.{
  Organization, OrganizationMember, role_owner, role_admin, is_valid_role, Grant, Rule, is_grant,
  is_rule, is_allowed, Enforcer, Reliable, create, find_by_id, find_by_slug, add_member, is_member,
}
use base_go_api.Organizations.Service.{
  actions_of, built, permit, judge_slug, check_slug, add_policies, give_role, found_organization,
  create_organization, insert_member, add_organization_member, remove_organization_member,
}
use base_go_api.Organizations.Owned.{IsOwned}
use base_go_api.Organizations.Unmoved.{IsApart}
use base_go_api.Organizations.Roles.{May, add_organization_member-May}
use base_go_api.Organizations.Histories.{created, member_removed, here, next, Reach-IsOwned}

record Tables : Type 0 where
  companies : List Organization
  people : List OrganizationMember
  grants : List Grant
  rules : List Rule

abbrev orgs : Table Tables Organization
orgs = list_table (λ d. d.companies) (λ l d. record d { companies = l })

abbrev members : Table Tables OrganizationMember
members = list_table (λ d. d.people) (λ l d. record d { people = l })

abbrev orgs-Laws : Laws orgs
orgs-Laws = list-Laws (λ d. d.companies) (λ l d. record d { companies = l }) (λ l d. refl)

abbrev members-Laws : Laws members
members-Laws = list-Laws (λ d. d.people) (λ l d. record d { people = l }) (λ l d. refl)

orgs-Apart : Apart orgs orgs-Laws members
orgs-Apart = record {
  first_apart = λ p d. refl;
  find_apart = λ p d. refl;
  update_apart = λ p f d. refl;
  count_where_apart = λ p d. refl;
  delete_apart = λ p d. refl;
  create_apart = λ r d. refl;
}

members-Apart : Apart members members-Laws orgs
members-Apart = record {
  first_apart = λ p d. refl;
  find_apart = λ p d. refl;
  update_apart = λ p f d. refl;
  count_where_apart = λ p d. refl;
  delete_apart = λ p d. refl;
  create_apart = λ r d. refl;
}

abbrev enforcer : Enforcer Tables
enforcer = record {
  enforce =
      λ user dom object action d. (ok (is_allowed d.grants d.rules user dom object action), d);
  add_role_for_user = λ user role dom d. (
    ok tt,
    record d { grants = record { user = user; granted = role; domain = dom } ∷ d.grants },
  );
  remove_role_for_user = λ user role dom d. (ok tt, record d { grants = [] });
  add_policy = λ role dom object action d. (
    ok tt,
    record d {
      rules = record { subject = role; scope = dom; object = object; action = action } ∷ d.rules;
    },
  );
}

is_grant_refl :
    (user : ℕ) (role : Bytes) (dom : ℕ)
    → is_grant user role dom (record { user = user; granted = role; domain = dom }) ≡ true
is_grant_refl user role dom = ground (arith, bytes_eq_refl role)

is_rule_refl :
    (role : Bytes) (dom : ℕ) (object action : Bytes)
    → is_rule role dom object action
        (record { subject = role; scope = dom; object = object; action = action })
      ≡ true
is_rule_refl role dom object action =
    ground (arith, bytes_eq_refl role, bytes_eq_refl object, bytes_eq_refl action)

any_here : {A : Type 0} (p : A → Bool) (x : A) (l : List A) → p x ≡ true → any p (x ∷ l) ≡ true
any_here p x l h = rw h refl

any_there : {A : Type 0} (p : A → Bool) (x : A) (l : List A) → any p l ≡ true → any p (x ∷ l) ≡ true
any_there p x l h = ground arith

enforcer-Reliable : Reliable enforcer
enforcer-Reliable = record {
  grants = λ d. d.grants;
  rules = λ d. d.rules;
  enforce_runs = λ user dom object action d. refl;
  role_added =
      λ user role dom d. any_here (is_grant user role dom) _ d.grants (is_grant_refl user role dom);
  policy_grants = λ role dom object action d. refl;
  policy_added = λ role dom object action d.
      any_here (is_rule role dom object action) _ d.rules (is_rule_refl role dom object action);
  policy_keeps = λ p role dom object action d h. any_there p _ d.rules h;
}

enforcer-IsApart : IsApart enforcer orgs-Laws.rows members-Laws.rows
enforcer-IsApart = record {
  enforce_orgs = λ u d o a s. refl;
  enforce_members = λ u d o a s. refl;
  add_role_orgs = λ u r d s. refl;
  add_role_members = λ u r d s. refl;
  remove_role_orgs = λ u r d s. refl;
  remove_role_members = λ u r d s. refl;
  add_policy_orgs = λ r d o a s. refl;
  add_policy_members = λ r d o a s. refl;
}

abbrev empty : Tables
empty = record { companies = []; people = []; grants = []; rules = [] }

-- User 1 founds organization 5.
abbrev founding : Outcome Organization × Tables
founding = create_organization orgs members enforcer 5 1 (codes "Acme") (codes "acme") none empty

founding_runs : founding.0 ≡ ok (built 5 1 (codes "Acme") (codes "acme") [])
unfolding create_organization check_slug judge_slug find_by_slug found_organization create
    add_member give_role add_policies actions_of missing_or_internal is_not_found
founding_runs = refl

founding_made : founding ≡ (ok (built 5 1 (codes "Acme") (codes "acme") []), founding.1)
unfolding create_organization check_slug judge_slug find_by_slug found_organization create
    add_member give_role add_policies actions_of missing_or_internal is_not_found
founding_made = refl

-- The owner tries to leave.
abbrev leaving : Outcome (Unit {0}) × Tables
leaving = remove_organization_member orgs members enforcer 1 5 1 founding.1

empty-IsOwned : IsOwned empty.companies empty.people
empty-IsOwned = (λ o there. elim there [ ], λ o p there. elim there [ ])

Reach-IsOwned_example : IsOwned leaving.1.companies leaving.1.people
Reach-IsOwned_example =
    Reach-IsOwned orgs members enforcer orgs-Laws members-Laws orgs-Apart members-Apart
      enforcer-IsApart {s = empty} {e = leaving.1} empty-IsOwned
      (next
        (next here (
          created 5 1 (codes "Acme") (codes "acme") none
            (built 5 1 (codes "Acme") (codes "acme") []) (λ p there. elim there [ ]) founding_made))
        (member_removed 1 5 1 refl))

-- User 2 joins as an administrator, and makes user 3 an owner.
abbrev joined : Outcome OrganizationMember × Tables
joined = add_organization_member orgs members enforcer 1 5 2 role_admin founding.1

abbrev raised : Outcome OrganizationMember × Tables
raised = add_organization_member orgs members enforcer 2 5 3 role_owner joined.1

raised_runs : raised.0 ≡ ok (record { organization_id = 5; user_id = 3; role = role_owner })
unfolding create_organization check_slug judge_slug find_by_slug found_organization create
    add_member give_role add_policies actions_of missing_or_internal is_not_found
    add_organization_member permit is_allowed is_valid_role find_by_id is_member insert_member
raised_runs = refl

add_organization_member-May_example :
    May orgs members enforcer enforcer-Reliable 3 5 (actions_of role_owner) raised.1
add_organization_member-May_example =
    add_organization_member-May orgs members enforcer enforcer-Reliable 2 5 3 role_owner joined.1
      {m = record { organization_id = 5; user_id = 3; role = role_owner }} raised_runs
