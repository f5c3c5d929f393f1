-- ===== src/Organizations/Organization.antt =====
-- internal/domain/organization.go and internal/domain/organization_member.go, their methods of
-- internal/repository/organization.go on one row, and the interface of the enforcer of
-- internal/permission/enforcer.go, whose rules a library keeps.
use base_go_api.Prelude.{ℕ, ◌==◌, ◌&&◌, ◌||◌, ◌≡◌, Bool, true, not, List, any}
use base_go_api.Prelude.Bytes.{Bytes, bytes_eq, codes}
use base_go_api.Prelude.Outcome.{ok, Call, ◌>>=◌, pure, map_err}
use base_go_api.Errors.{wrap_internal}
use base_go_api.Sql.Table.{Table}
use base_go_api.Sql.Results.{missing_or_internal, at_least_one}

pub record Organization : Type 0 where
  pub id : ℕ
  pub name : Bytes
  pub slug : Bytes
  pub owner_id : ℕ
  pub settings : Bytes

pub record OrganizationMember : Type 0 where
  pub organization_id : ℕ
  pub user_id : ℕ
  pub role : Bytes

abbrev pub role_owner : Bytes
role_owner = codes "owner"

abbrev pub role_admin : Bytes
role_admin = codes "admin"

abbrev pub role_member : Bytes
role_member = codes "member"

unfoldable pub is_valid_role : Bytes → Bool
is_valid_role role =
    bytes_eq role role_owner || (bytes_eq role role_admin || bytes_eq role role_member)

abbrev pub is_membership : ℕ → ℕ → OrganizationMember → Bool
is_membership org user m = m.organization_id == org && m.user_id == user

module _ {S : Type 0} (orgs : Table S Organization) where
  unfoldable pub create : Organization → Call S (Unit {0})
  create o = map_err wrap_internal (orgs.create o)

  unfoldable pub find_by_id : ℕ → Call S Organization
  find_by_id id = map_err missing_or_internal (orgs.first (λ o. o.id == id))

  unfoldable pub find_by_slug : Bytes → Call S Organization
  find_by_slug slug = map_err missing_or_internal (orgs.first (λ o. bytes_eq o.slug slug))

  -- `Save` of an organization that was read.
  unfoldable pub update : Organization → Call S (Unit {0})
  update o = map_err wrap_internal (orgs.update (λ x. x.id == o.id) (λ _. o)) >>= at_least_one

  unfoldable pub soft_delete : ℕ → Call S (Unit {0})
  soft_delete id = map_err wrap_internal (orgs.delete (λ o. o.id == id)) >>= at_least_one

module _ {S : Type 0} (members : Table S OrganizationMember) where
  unfoldable pub add_member : OrganizationMember → Call S (Unit {0})
  add_member m = map_err wrap_internal (members.create m)

  unfoldable pub remove_member : ℕ → ℕ → Call S (Unit {0})
  remove_member org user =
      map_err wrap_internal (members.delete (is_membership org user)) >>= at_least_one

  unfoldable pub find_member : ℕ → ℕ → Call S OrganizationMember
  find_member org user = map_err missing_or_internal (members.first (is_membership org user))

  unfoldable pub is_member : ℕ → ℕ → Call S Bool
  is_member org user = map_err wrap_internal (members.count_where (is_membership org user)) >>= λ n.
      pure (not (n == 0))

-- A role of a user in a domain, and a permission of a role there.
pub record Grant : Type 0 where
  pub user : ℕ
  pub granted : Bytes
  pub domain : ℕ

pub record Rule : Type 0 where
  pub subject : Bytes
  pub scope : ℕ
  pub object : Bytes
  pub action : Bytes

abbrev pub is_grant : ℕ → Bytes → ℕ → Grant → Bool
is_grant user role dom g = g.user == user && (bytes_eq g.granted role && g.domain == dom)

abbrev pub is_rule : Bytes → ℕ → Bytes → Bytes → Rule → Bool
is_rule role dom object action r =
    bytes_eq r.subject role
    && (r.scope == dom && (bytes_eq r.object object && bytes_eq r.action action))

-- The matcher of `RBACModel` for a user, whose identifier is no role: a role of the user in the domain has
-- a rule for the object and the action there.
unfoldable pub is_allowed : List Grant → List Rule → ℕ → ℕ → Bytes → Bytes → Bool
is_allowed grants rules user dom object action =
    any
      (λ g. g.user == user && (g.domain == dom && any (is_rule g.granted dom object action) rules))
      grants

pub record Enforcer (S : Type 0) : Type 0 where
  pub enforce : ℕ → ℕ → Bytes → Bytes → Call S Bool
  pub add_role_for_user : ℕ → Bytes → ℕ → Call S (Unit {0})
  pub remove_role_for_user : ℕ → Bytes → ℕ → Call S (Unit {0})
  pub add_policy : Bytes → ℕ → Bytes → Bytes → Call S (Unit {0})

-- An enforcer whose store reports no error: what it keeps, how it decides, and what is added.
pub record Reliable {S : Type 0} (e : Enforcer S) : Type 0 where
  pub grants : S → List Grant
  pub rules : S → List Rule
  pub enforce_runs :
      (user dom : ℕ) (object action : Bytes) (s : S)
      → (e.enforce user dom object action s).0
        ≡ ok (is_allowed (grants s) (rules s) user dom object action)
  pub role_added :
      (user : ℕ) (role : Bytes) (dom : ℕ) (s : S)
      → any (is_grant user role dom) (grants (e.add_role_for_user user role dom s).1) ≡ true
  pub policy_grants :
      (role : Bytes) (dom : ℕ) (object action : Bytes) (s : S)
      → grants (e.add_policy role dom object action s).1 ≡ grants s
  pub policy_added :
      (role : Bytes) (dom : ℕ) (object action : Bytes) (s : S)
      → any (is_rule role dom object action) (rules (e.add_policy role dom object action s).1)
        ≡ true
  pub policy_keeps :
      (p : Rule → Bool) (role : Bytes) (dom : ℕ) (object action : Bytes) (s : S)
      → any p (rules s) ≡ true
      → any p (rules (e.add_policy role dom object action s).1) ≡ true
