-- ===== src/Organizations/Membership.antt =====
-- The owner of an organization as its member, under the calls of internal/service/organization.go that add
-- and remove members.
use base_go_api.Prelude.{
  ℕ, ◌==◌, ◌≡◌, refl, sym, subst, Bool, true, false, not, arith, Bool-cases, inl, inr,
  if◌then◌else◌,
}
use base_go_api.Prelude.Bytes.{Bytes, codes}
use base_go_api.Prelude.Keeping.{Keeps, bind-Keeps, map_err-Keeps, if-Keeps, bind_leads}
use base_go_api.Prelude.Outcome.{
  Outcome, ok, err, ◌>>=◌, pure, fail, map_err, attempt, map_err_state,
}
use base_go_api.Errors.{wrap_internal}
use base_go_api.Sql.Table.{Table, Laws, Apart}
use base_go_api.Sql.Results.{at_least_one}
use base_go_api.Sessions.Kept.{at_least_one-Keeps}
use base_go_api.Organizations.Organization.{
  Organization, OrganizationMember, is_valid_role, is_membership, Enforcer, find_by_id, add_member,
  remove_member, is_member,
}
use base_go_api.Organizations.Owned.{IsOwned, joined-IsOwned, left-IsOwned}
use base_go_api.Organizations.Unmoved.{
  IsApart, moved, permit-Keeps, find_by_id-Keeps, is_member-Keeps, give_role-Keeps,
}
use base_go_api.Organizations.Service.{
  permit, give_role, insert_member, add_organization_member, dismiss, invalid, conflict,
}
use base_go_api.Organizations.Ownership.{Owned, ReadOf}

module _ {S : Type 0} (orgs : Table S Organization) (members : Table S OrganizationMember)
    (enforcer : Enforcer S) (laws_o : Laws orgs) (laws_m : Laws members)
    (apart_o : Apart orgs laws_o members) (apart_m : Apart members laws_m orgs)
    (apart_e : IsApart enforcer laws_o.rows laws_m.rows) where
  abbrev AreOwned : S → Type 0
  AreOwned = Owned orgs members enforcer laws_o laws_m apart_o apart_m apart_e

  abbrev IsRead : Organization → S → Type 0
  IsRead = ReadOf orgs members enforcer laws_o laws_m apart_o apart_m apart_e

  -- Members: one added, and one removed who is not the owner.
  pub add_member-Keeps : (m : OrganizationMember) → Keeps AreOwned (add_member members m)
  unfolding add_member
  add_member-Keeps m =
      map_err-Keeps AreOwned wrap_internal (members.create m)
        (λ s i. go s i (members.create m s).0 refl)
    where
      go :
          (s : S)
          → AreOwned s
          → (r : Outcome (Unit {0})) → (members.create m s).0 ≡ r
          → AreOwned (members.create m s).1
      go s i (ok u) e =
          subst (λ os. IsOwned os (laws_m.rows (members.create m s).1))
            (sym (apart_o.create_apart m s))
            (subst (IsOwned (laws_o.rows s)) (sym (laws_m.create_ok m s e))
              (joined-IsOwned (laws_o.rows s) (laws_m.rows s) m i))
      go s i (err x) e =
          moved orgs members enforcer laws_o laws_m apart_o apart_m apart_e IsOwned s _
            (apart_o.create_apart m s) (laws_m.create_err m s x e) i

  insert_member-Keeps :
      (org user : ℕ) (role : Bytes) (already : Bool)
      → Keeps AreOwned (insert_member orgs members enforcer org user role already)
  unfolding insert_member
  insert_member-Keeps org user role already =
      let m : OrganizationMember = record { organization_id = org; user_id = user; role = role } in
      let added = map_err wrap_internal (add_member members m) in
      let given = give_role orgs members enforcer user role org in
      let rest = added >>= λ _. given >>= (λ _. pure m) in
      if-Keeps AreOwned already (fail conflict) rest (λ s i. i)
        (bind-Keeps AreOwned added (λ _. given >>= (λ _. pure m))
          (map_err-Keeps AreOwned wrap_internal (add_member members m) (add_member-Keeps m))
          (λ u.
            bind-Keeps AreOwned given (λ _. pure m)
              (give_role-Keeps orgs members enforcer laws_o laws_m apart_o apart_m apart_e IsOwned
                user role org)
              (λ v s i. i)))

  pub add_organization_member-Keeps :
      (user org newcomer : ℕ) (role : Bytes)
      → Keeps AreOwned (add_organization_member orgs members enforcer user org newcomer role)
  unfolding add_organization_member
  add_organization_member-Keeps user org newcomer role =
      let insert = insert_member orgs members enforcer org newcomer role in
      let counted = map_err wrap_internal (is_member members org newcomer) in
      let looked = find_by_id orgs org >>= λ _. counted >>= insert in
      let wrong = fail {S = S} {A = OrganizationMember} invalid in
      bind-Keeps AreOwned (permit orgs members enforcer user org (codes "invite"))
        (λ _. if not (is_valid_role role) then wrong else looked)
        (permit-Keeps orgs members enforcer laws_o laws_m apart_o apart_m apart_e IsOwned user org
          (codes "invite"))
        (λ u.
          if-Keeps AreOwned (not (is_valid_role role)) wrong looked (λ s i. i)
            (bind-Keeps AreOwned (find_by_id orgs org) (λ _. counted >>= insert)
              (find_by_id-Keeps orgs members enforcer laws_o laws_m apart_o apart_m apart_e IsOwned
                org)
              (λ o.
                bind-Keeps AreOwned counted insert
                  (map_err-Keeps AreOwned wrap_internal (is_member members org newcomer) (
                    is_member-Keeps orgs members enforcer laws_o laws_m apart_o apart_m apart_e
                      IsOwned org newcomer))
                  (insert_member-Keeps org newcomer role))))

  remove_member_leads :
      (org user : ℕ) (o : Organization) (s : S)
      → (o.id == org) ≡ true
      → (user == o.owner_id) ≡ false
      → IsRead o s
      → AreOwned (remove_member members org user s).1
  unfolding remove_member
  remove_member_leads org user o s named other (i, there) =
      let m = members.delete (is_membership org user) in
      let deleted = go (m s).0 refl in
      bind_leads AreOwned (map_err wrap_internal m) at_least_one s
        (λ e x. subst AreOwned (sym (map_err_state wrap_internal m s)) deleted)
        (λ n x.
          at_least_one-Keeps AreOwned n (map_err wrap_internal m s).1
            (subst AreOwned (sym (map_err_state wrap_internal m s)) deleted))
    where
      go :
          (r : Outcome ℕ)
          → (members.delete (is_membership org user) s).0 ≡ r
          → AreOwned (members.delete (is_membership org user) s).1
      go (ok n) e =
          subst (λ os. IsOwned os (laws_m.rows (members.delete (is_membership org user) s).1))
            (sym (apart_o.delete_apart (is_membership org user) s))
            (subst (IsOwned (laws_o.rows s)) (sym (laws_m.delete_ok (is_membership org user) s n e))
              (left-IsOwned (laws_o.rows s) (laws_m.rows s) org user o there named other i))
      go (err x) e =
          moved orgs members enforcer laws_o laws_m apart_o apart_m apart_e IsOwned s _
            (apart_o.delete_apart (is_membership org user) s)
            (laws_m.delete_err (is_membership org user) s x e) i

  pub dismiss_leads :
      (member : OrganizationMember) (org user : ℕ) (o : Organization) (s : S)
      → (o.id == org) ≡ true
      → (member.user_id == user) ≡ true
      → IsRead o s
      → AreOwned (dismiss orgs members enforcer member org user o s).1
  unfolding dismiss
  dismiss_leads member org user o s named is_user i =
      let removed = remove_member members org user in
      let tidy = λ (u : Unit {0}).
        attempt (enforcer.remove_role_for_user user member.role org) >>= (λ _. pure tt) in
      elim (Bool-cases (member.user_id == o.owner_id)) [
        | inl owner ↦ rw owner i.0
        | inr other ↦
            let after = remove_member_leads org user o s named (ground arith) i in
            rw other (
              bind_leads AreOwned removed tidy s (λ e x. after)
                (λ u x.
                  moved orgs members enforcer laws_o laws_m apart_o apart_m apart_e IsOwned
                    (removed s).1 _ (apart_e.remove_role_orgs user member.role org (removed s).1)
                    (apart_e.remove_role_members user member.role org (removed s).1) after))
      ]
