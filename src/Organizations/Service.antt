-- ===== src/Organizations/Service.antt =====
-- internal/service/organization.go. The lists, the audit records and the invitation e-mail are left out;
-- `settings` is the encoding of a map, or its error, where one is given.
use base_go_api.Prelude.{
  ℕ, ◌==◌, ◌&&◌, ◌||◌, Bool, not, Option, none, some, List, [], ◌∷◌, length, if◌then◌else◌,
}
use base_go_api.Prelude.Bytes.{Bytes, bytes_eq, codes}
use base_go_api.Prelude.Outcome.{Outcome, ok, err, Call, ◌>>=◌, pure, fail, map_err, attempt}
use base_go_api.Errors.{Error, app, forbidden, is_not_found, wrap_internal}
use base_go_api.Sql.Table.{Table}
use base_go_api.Organizations.Organization.{
  Organization, OrganizationMember, role_owner, role_admin, role_member, is_valid_role, Enforcer,
  create, find_by_id, find_by_slug, update, soft_delete, add_member, remove_member, find_member,
  is_member,
}

abbrev pub invalid : Error
invalid = app "VALIDATION_ERROR" 422

abbrev pub conflict : Error
conflict = app "CONFLICT" 409

abbrev pub invalid_operation : Error
invalid_operation = app "INVALID_OPERATION" 422

-- The actions that a role gets when it is given to a member.
unfoldable pub actions_of : Bytes → List Bytes
actions_of role =
    if bytes_eq role role_owner
    then codes "view" ∷ codes "manage" ∷ codes "invite" ∷ codes "remove" ∷ []
    else if bytes_eq role role_admin
    then codes "view" ∷ codes "manage" ∷ codes "invite" ∷ []
    else if bytes_eq role role_member
    then codes "view" ∷ []
    else []

-- The settings of the request, or those that are there.
abbrev pub chosen : Bytes → Option (Outcome Bytes) → Outcome Bytes
chosen old none = ok old
chosen old (some (ok text)) = ok text
chosen old (some (err e)) = err invalid

abbrev pub built : ℕ → ℕ → Bytes → Bytes → Bytes → Organization
built id user name slug settings = record {
  id = id;
  name = name;
  slug = slug;
  owner_id = user;
  settings = settings;
}

-- The organization that `UpdateOrganization` saves.
abbrev pub changed : Bytes → Bytes → Bytes → Organization → Organization
changed name slug settings o = record o {
  name = if length name == 0 then o.name else name;
  slug = if length slug == 0 then o.slug else slug;
  settings = settings;
}

module _ {S : Type 0} (orgs : Table S Organization) (members : Table S OrganizationMember)
    (enforcer : Enforcer S) where
  -- The check that each method starts with.
  unfoldable pub permit : ℕ → ℕ → Bytes → Call S (Unit {0})
  permit user org action =
      map_err wrap_internal (enforcer.enforce user org (codes "organization") action) >>= λ allowed.
      if not allowed then fail forbidden else pure tt

  -- The test for a duplicate slug: what follows the look-up, and both.
  unfoldable pub judge_slug : Outcome Organization → Call S (Unit {0})
  judge_slug (ok o) = fail conflict
  judge_slug (err e) = if is_not_found e then pure tt else fail (wrap_internal e)

  unfoldable pub check_slug : Bytes → Call S (Unit {0})
  unfolding find_by_slug judge_slug
  check_slug slug = attempt (find_by_slug orgs slug) >>= judge_slug

  -- The loop that adds the policies of a role; their errors are logged.
  unfoldable pub add_policies : Bytes → ℕ → List Bytes → Call S (Unit {0})
  add_policies role org [] = pure tt
  add_policies role org (action ∷ rest) =
      attempt (enforcer.add_policy role org (codes "organization") action) >>= λ _.
      add_policies role org rest

  -- The role of a member, and what it allows.
  unfoldable pub give_role : ℕ → Bytes → ℕ → Call S (Unit {0})
  unfolding add_policies actions_of
  give_role user role org = attempt (enforcer.add_role_for_user user role org) >>= λ _.
      add_policies role org (actions_of role)

  -- `id` is drawn by the database.
  unfoldable pub found_organization : ℕ → ℕ → Bytes → Bytes → Bytes → Call S Organization
  unfolding create add_member give_role
  found_organization id user name slug settings =
      let member : OrganizationMember = record {
        organization_id = id;
        user_id = user;
        role = role_owner;
      } in
      map_err wrap_internal (create orgs (built id user name slug settings)) >>= λ _.
      map_err wrap_internal (add_member members member) >>= λ _.
      give_role user role_owner id >>= λ _. pure (built id user name slug settings)

  unfoldable pub create_organization :
      ℕ → ℕ → Bytes → Bytes → Option (Outcome Bytes) → Call S Organization
  unfolding check_slug found_organization
  create_organization id user name slug settings =
      if (length name == 0) || (length slug == 0)
      then fail invalid
      else check_slug slug >>= (λ _. elim (chosen [] settings) [
        | err e ↦ fail e
        | ok text ↦ found_organization id user name slug text
      ])

  unfoldable pub get_organization : ℕ → ℕ → Call S Organization
  unfolding permit find_by_id
  get_organization user org = permit user org (codes "view") >>= λ _. find_by_id orgs org

  unfoldable pub save_changed :
      Bytes → Bytes → Option (Outcome Bytes) → Organization → Call S Organization
  unfolding update
  save_changed name slug settings o = elim (chosen o.settings settings) [
    | err e ↦ fail e
    | ok text ↦ update orgs (changed name slug text o) >>= λ _. pure (changed name slug text o)
  ]

  unfoldable pub change :
      Bytes → Bytes → Option (Outcome Bytes) → Organization → Call S Organization
  unfolding check_slug save_changed
  change name slug settings o =
      if not (length slug == 0) && not (bytes_eq slug o.slug)
      then check_slug slug >>= (λ _. save_changed name slug settings o)
      else save_changed name slug settings o

  unfoldable pub update_organization :
      ℕ → ℕ → Bytes → Bytes → Option (Outcome Bytes) → Call S Organization
  unfolding permit find_by_id change
  update_organization user org name slug settings =
      permit user org (codes "manage") >>= λ _. find_by_id orgs org >>= change name slug settings

  unfoldable pub delete_organization : ℕ → ℕ → Call S (Unit {0})
  unfolding permit find_by_id soft_delete
  delete_organization user org =
      permit user org (codes "manage") >>= λ _. find_by_id orgs org >>= λ _. soft_delete orgs org

  unfoldable pub insert_member : ℕ → ℕ → Bytes → Bool → Call S OrganizationMember
  unfolding add_member give_role
  insert_member org user role already =
      let member : OrganizationMember = record {
        organization_id = org;
        user_id = user;
        role = role;
      } in
      if already
      then fail conflict
      else map_err wrap_internal (add_member members member) >>= λ _.
          give_role user role org >>= (λ _. pure member)

  unfoldable pub add_organization_member : ℕ → ℕ → ℕ → Bytes → Call S OrganizationMember
  unfolding permit is_valid_role find_by_id is_member insert_member
  add_organization_member user org newcomer role = permit user org (codes "invite") >>= λ _.
      if not (is_valid_role role)
      then fail invalid
      else find_by_id orgs org >>= λ _.
          map_err wrap_internal (is_member members org newcomer) >>= insert_member org newcomer role

  unfoldable pub dismiss : OrganizationMember → ℕ → ℕ → Organization → Call S (Unit {0})
  unfolding remove_member
  dismiss member org user o =
      if member.user_id == o.owner_id
      then fail invalid_operation
      else remove_member members org user >>= λ _.
          attempt (enforcer.remove_role_for_user user member.role org) >>= (λ _. pure tt)

  unfoldable pub remove_organization_member : ℕ → ℕ → ℕ → Call S (Unit {0})
  unfolding permit find_member find_by_id dismiss
  remove_organization_member user org target = permit user org (codes "remove") >>= λ _.
      find_member members org target >>= λ member. find_by_id orgs org >>= dismiss member org target
