-- ===== src/Organizations/Owned.antt =====
-- The owner of an organization as its member, under each kind of write of
-- internal/service/organization.go.
use base_go_api.Prelude.{
  ℕ, ◌==◌, ◌≡◌, ◌⊎◌, sym, subst, Bool, true, false, List, [], ◌∷◌, any, keep, arith, Bool-cases,
  inl, inr, if◌then◌else◌,
}
use base_go_api.Sql.Table.{In, updated}
use base_go_api.Organizations.Organization.{Organization, OrganizationMember, is_membership}

abbrev pub HasOwner : Organization → List OrganizationMember → Type 0
HasOwner o ms = any (is_membership o.id o.owner_id) ms ≡ true

-- Each organization has its owner among its members, and the rows of one identifier have one owner.
abbrev pub IsOwned : List Organization → List OrganizationMember → Type 0
IsOwned os ms =
    ((o : Organization) → In o os → HasOwner o ms)
    × ((o p : Organization) → In o os → In p os → (o.id == p.id) ≡ true → o.owner_id ≡ p.owner_id)

In-keep :
    (p : Organization → Bool) (os : List Organization) (o : Organization)
    → In o (keep p os)
    → In o os
In-keep p [] o there = there
In-keep p (q ∷ os) o there = elim (Bool-cases (p q)) [
  | inl stays ↦
      go (In-keep p os o) (subst (λ b. In o (if b then q ∷ keep p os else keep p os)) stays there)
  | inr goes ↦
      inr (In-keep p os o (subst (λ b. In o (if b then q ∷ keep p os else keep p os)) goes there))
]
  where
    go : (In o (keep p os) → In o os) → In o (q ∷ keep p os) → In o (q ∷ os)
    go ih (inl same) = inl same
    go ih (inr rest) = inr (ih rest)

-- An organization deleted, and a member added.
pub keep-IsOwned :
    (p : Organization → Bool) (os : List Organization) (ms : List OrganizationMember)
    → IsOwned os ms
    → IsOwned (keep p os) ms
keep-IsOwned p os ms (owned, one) = (
  λ o there. owned o (In-keep p os o there),
  λ o q there here same. one o q (In-keep p os o there) (In-keep p os q here) same,
)

pub joined-IsOwned :
    (os : List Organization) (ms : List OrganizationMember) (m : OrganizationMember)
    → IsOwned os ms
    → IsOwned os (m ∷ ms)
joined-IsOwned os ms m (owned, one) = (λ o there. let h = owned o there in ground arith, one)

-- A member removed who is not the owner.
any_left :
    (p q : OrganizationMember → Bool) (ms : List OrganizationMember)
    → ((m : OrganizationMember) → p m ≡ true → q m ≡ false)
    → any p ms ≡ true
    → any p (keep (λ m. if q m then false else true) ms) ≡ true
any_left p q [] apart h = h
any_left p q (m ∷ ms) apart h = elim (Bool-cases (p m)) [
  | inl yes_here ↦ let stays = apart m yes_here in ground arith
  | inr further ↦
      let rest = any_left p q ms apart (ground arith) in
      elim (Bool-cases (q m)) [ inl a ↦ ground arith | inr b ↦ ground arith ]
]

pub left-IsOwned :
    (os : List Organization) (ms : List OrganizationMember) (org user : ℕ) (o : Organization)
    → In o os
    → (o.id == org) ≡ true
    → (user == o.owner_id) ≡ false
    → IsOwned os ms
    → IsOwned os (keep (λ m. if is_membership org user m then false else true) ms)
left-IsOwned os ms org user o here named other (owned, one) = (
  λ p there.
      any_left (is_membership p.id p.owner_id) (is_membership org user) ms
        (λ m fits. apart p m (λ same. one o p here there same) fits) (owned p there),
  one,
)
  where
    apart :
        (p : Organization) (m : OrganizationMember)
        → ((o.id == p.id) ≡ true → o.owner_id ≡ p.owner_id)
        → is_membership p.id p.owner_id m ≡ true
        → is_membership org user m ≡ false
    apart p m agree fits = elim (Bool-cases (o.id == p.id)) [
      | inl same ↦ let owner = agree same in ground arith
      | inr differ ↦ ground arith
    ]

-- An organization saved with its identifier and its owner.
In-updated :
    (os : List Organization) (w o : Organization)
    → In o (updated (λ x. x.id == w.id) (λ _. w) os)
    → (o ≡ w) ⊎ In o os
In-updated [] w o there = inr there
In-updated (q ∷ os) w o (inl same) = elim (Bool-cases (q.id == w.id)) [
  | inl hit ↦ inl (ground arith)
  | inr miss ↦ inr (inl (ground arith))
]
In-updated (q ∷ os) w o (inr there) = further (In-updated os w o there)
  where
    further : (o ≡ w) ⊎ In o os → (o ≡ w) ⊎ In o (q ∷ os)
    further (inl same) = inl same
    further (inr rest) = inr (inr rest)

pub saved-IsOwned :
    (os : List Organization) (ms : List OrganizationMember) (o w : Organization)
    → In o os
    → w.id ≡ o.id
    → w.owner_id ≡ o.owner_id
    → IsOwned os ms
    → IsOwned (updated (λ x. x.id == w.id) (λ _. w) os) ms
saved-IsOwned os ms o w here id owner (owned, one) = (
  λ p there. first p (In-updated os w p there),
  λ p q there near same. second p q (In-updated os w p there) (In-updated os w q near) same,
)
  where
    own : HasOwner w ms
    own =
        subst (λ (x : ℕ). any (is_membership x w.owner_id) ms ≡ true) (sym id)
          (subst (λ (x : ℕ). any (is_membership o.id x) ms ≡ true) (sym owner) (owned o here))

    first : (p : Organization) → (p ≡ w) ⊎ In p os → HasOwner p ms
    first p (inl same) = subst (λ x. HasOwner x ms) (sym same) own
    first p (inr there) = owned p there

    second :
        (p q : Organization)
        → (p ≡ w) ⊎ In p os
        → (q ≡ w) ⊎ In q os
        → (p.id == q.id) ≡ true
        → p.owner_id ≡ q.owner_id
    second p q (inl a) (inl b) same = cc
    second p q (inl a) (inr b) same = let agree = one o q here b in ground arith
    second p q (inr a) (inl b) same = let agree = one p o a here in ground arith
    second p q (inr a) (inr b) same = one p q a b same

-- An organization created under a new identifier, with its owner as a member.
pub created-IsOwned :
    (os : List Organization) (ms : List OrganizationMember) (o : Organization)
    (m : OrganizationMember)
    → ((p : Organization) → In p os → (o.id == p.id) ≡ false)
    → is_membership o.id o.owner_id m ≡ true
    → IsOwned os ms
    → IsOwned (o ∷ os) (m ∷ ms)
created-IsOwned os ms o m fresh joined (owned, one) = (first, second)
  where
    first : (p : Organization) → In p (o ∷ os) → HasOwner p (m ∷ ms)
    first p (inl same) = ground arith
    first p (inr there) = let h = owned p there in ground arith

    second :
        (p q : Organization)
        → In p (o ∷ os)
        → In q (o ∷ os)
        → (p.id == q.id) ≡ true
        → p.owner_id ≡ q.owner_id
    second p q (inl a) (inl b) same = cc
    second p q (inl a) (inr b) same = let no_clash = fresh q b in ground arith
    second p q (inr a) (inl b) same = let no_clash = fresh p a in ground arith
    second p q (inr a) (inr b) same = one p q a b same
