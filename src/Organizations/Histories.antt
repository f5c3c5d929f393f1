-- ===== src/Organizations/Histories.antt =====
-- Histories of organizations: the calls of internal/service/organization.go in any order.
use base_go_api.Prelude.{ℕ, ◌≡◌, ap, subst, Option, arith}
use base_go_api.Prelude.Bytes.{Bytes, codes}
use base_go_api.Prelude.Keeping.{Keeps, bind-Keeps, bind_leads}
use base_go_api.Prelude.Outcome.{Outcome, ok, ◌>>=◌, map_err}
use base_go_api.Sql.Table.{Table, Laws, Apart}
use base_go_api.Sql.Effects.{first-ok}
use base_go_api.Sql.Results.{missing_or_internal}
use base_go_api.Organizations.Organization.{
  Organization, OrganizationMember, is_membership, Enforcer, find_by_id, find_member,
}
use base_go_api.Organizations.Owned.{IsOwned}
use base_go_api.Organizations.Unmoved.{
  IsApart, moved, permit-Keeps, find_by_id-Keeps, find_member-Keeps,
}
use base_go_api.Organizations.Ownership.{
  Owned, found, update_organization-Keeps, delete_organization-Keeps,
}
use base_go_api.Organizations.Creation.{IsFresh, create_organization-Ends}
use base_go_api.Organizations.Membership.{dismiss_leads, add_organization_member-Keeps}
use base_go_api.Organizations.Service.{
  permit, create_organization, update_organization, delete_organization, add_organization_member,
  dismiss, remove_organization_member,
}

module _ {S : Type 0} (orgs : Table S Organization) (members : Table S OrganizationMember)
    (enforcer : Enforcer S) (laws_o : Laws orgs) (laws_m : Laws members)
    (apart_o : Apart orgs laws_o members) (apart_m : Apart members laws_m orgs)
    (apart_e : IsApart enforcer laws_o.rows laws_m.rows) where
  abbrev AreOwned : S → Type 0
  AreOwned = Owned orgs members enforcer laws_o laws_m apart_o apart_m apart_e

  remove_organization_member-Keeps :
      (user org target : ℕ)
      → Keeps AreOwned (remove_organization_member orgs members enforcer user org target)
  unfolding remove_organization_member find_member
  remove_organization_member-Keeps user org target =
      let looked = map_err missing_or_internal (members.first (is_membership org target)) in
      let rest = λ (m : OrganizationMember).
        find_by_id orgs org >>= dismiss orgs members enforcer m org target in
      bind-Keeps AreOwned (permit orgs members enforcer user org (codes "remove"))
        (λ _. looked >>= rest)
        (permit-Keeps orgs members enforcer laws_o laws_m apart_o apart_m apart_e IsOwned user org
          (codes "remove"))
        (λ u s i.
          let still =
            find_member-Keeps orgs members enforcer laws_o laws_m apart_o apart_m apart_e IsOwned
              org target s i in
          bind_leads AreOwned looked rest s (λ e x. still)
            (λ m x.
              let (same, fits, there) =
                first-ok members laws_m missing_or_internal (is_membership org target) s x in
              bind_leads AreOwned (find_by_id orgs org) (dismiss orgs members enforcer m org target)
                (looked s).1
                (λ e y.
                  find_by_id-Keeps orgs members enforcer laws_o laws_m apart_o apart_m apart_e
                    IsOwned org (looked s).1 still)
                (λ o y.
                  let (named, read) =
                    found orgs members enforcer laws_o laws_m apart_o apart_m apart_e org
                      (looked s).1 y still in
                  dismiss_leads orgs members enforcer laws_o laws_m apart_o apart_m apart_e m org
                    target o _ named (ground arith) read)))

  -- A call of the service, or a statement on another table. A creation is one that succeeds, under an
  -- identifier that is new; the others have any outcome.
  pub data Step (s : S) (e : S) : Type 0 where
    created :
        (id user : ℕ) (name slug : Bytes) (settings : Option (Outcome Bytes)) (o : Organization)
        → IsFresh orgs members enforcer laws_o laws_m apart_o apart_m apart_e id s
        → create_organization orgs members enforcer id user name slug settings s ≡ (ok o, e)
        → Step s e
    updated :
        (user org : ℕ) (name slug : Bytes) (settings : Option (Outcome Bytes))
        → (update_organization orgs members enforcer user org name slug settings s).1 ≡ e
        → Step s e
    deleted :
        (user org : ℕ) → (delete_organization orgs members enforcer user org s).1 ≡ e → Step s e
    member_added :
        (user org newcomer : ℕ) (role : Bytes)
        → (add_organization_member orgs members enforcer user org newcomer role s).1 ≡ e
        → Step s e
    member_removed :
        (user org target : ℕ)
        → (remove_organization_member orgs members enforcer user org target s).1 ≡ e
        → Step s e
    elsewhere : laws_o.rows e ≡ laws_o.rows s → laws_m.rows e ≡ laws_m.rows s → Step s e

  pub data Reach (s : S) : S → Type 0 where
    here : Reach s s
    next : {e f : S} → Reach s e → Step e f → Reach s f

  Step-Owned : {s e : S} → Step s e → AreOwned s → AreOwned e
  Step-Owned {s} {e} (created id user name slug settings o fresh h) i =
      subst AreOwned (ap (λ x. x.1) h) (
        create_organization-Ends orgs members enforcer laws_o laws_m apart_o apart_m apart_e id user
          name slug settings s i fresh o (ap (λ x. x.0) h))
  Step-Owned {s} (updated user org name slug settings h) i = subst AreOwned h (
      update_organization-Keeps orgs members enforcer laws_o laws_m apart_o apart_m apart_e user org
        name slug settings s i)
  Step-Owned {s} (deleted user org h) i = subst AreOwned h (
      delete_organization-Keeps orgs members enforcer laws_o laws_m apart_o apart_m apart_e user org
        s i)
  Step-Owned {s} (member_added user org newcomer role h) i = subst AreOwned h (
      add_organization_member-Keeps orgs members enforcer laws_o laws_m apart_o apart_m apart_e user
        org newcomer role s i)
  Step-Owned {s} (member_removed user org target h) i =
      subst AreOwned h (remove_organization_member-Keeps user org target s i)
  Step-Owned {s} {e} (elsewhere p q) i =
      moved orgs members enforcer laws_o laws_m apart_o apart_m apart_e IsOwned s e p q i

  -- Whatever calls were made one after the other, with whatever outcome but that a creation succeeded
  -- and drew a new identifier: each organization has its owner among its members and the rows of one
  -- identifier have one owner, if it was so at the start.
  pub Reach-IsOwned :
      {s e : S}
      → IsOwned (laws_o.rows s) (laws_m.rows s)
      → Reach s e
      → IsOwned (laws_o.rows e) (laws_m.rows e)
  Reach-IsOwned i here = i
  Reach-IsOwned i (next r step) = Step-Owned step (Reach-IsOwned i r)
