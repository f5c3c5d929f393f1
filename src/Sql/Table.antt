-- ===== src/Sql/Table.antt =====
-- A table of the database, reached through GORM, which is no part of the repository: an interface of
-- the statements that the repositories send, and what its documentation promises of them. A
-- condition is a Boolean test of a row; the rows of a model with soft deletion are those that are
-- not deleted.
use base_go_api.Prelude.{ℕ, suc, ◌≡◌, ◌⊎◌, Bool, true, false, List, [], ◌∷◌, if◌then◌else◌, keep}
use base_go_api.Prelude.Outcome.{ok, err, Call}
use base_go_api.Errors.{Error, foreign}

pub record Table (S Row : Type 0) : Type 0 where
  pub create : Row → Call S (Unit {0})
  pub first : (Row → Bool) → Call S Row
  pub find : (Row → Bool) → Call S (List Row)
  pub update : (Row → Bool) → (Row → Row) → Call S ℕ
  pub delete : (Row → Bool) → Call S ℕ
  pub count_where : (Row → Bool) → Call S ℕ

-- The error value `gorm.ErrRecordNotFound`.
abbrev pub record_not_found : Error
record_not_found = foreign "record not found"

abbrev pub In : {A : Type 0} → A → List A → Type 0
In x [] = ⊥
In x (y ∷ ys) = (x ≡ y) ⊎ In x ys

abbrev pub count {ℓ} : {A : Type ℓ} → (A → Bool) → List A → ℕ
count p [] = 0
count p (x ∷ xs) = let n = count p xs in if p x then suc n else n

-- The rows after an `UPDATE`.
abbrev pub updated {ℓ} : {A : Type ℓ} → (A → Bool) → (A → A) → List A → List A
updated p f [] = []
updated p f (x ∷ xs) = (if p x then f x else x) ∷ updated p f xs

abbrev pub none_passes {ℓ} : {A : Type ℓ} → (A → Bool) → List A → Bool
none_passes p [] = true
none_passes p (x ∷ xs) = if p x then false else none_passes p xs

-- A statement that reports no error has had its effect, one that reports an error has had none, and
-- one that reads changes no row.
pub record Laws {S Row : Type 0} (t : Table S Row) : Type 0 where
  pub rows : S → List Row
  pub create_ok : (r : Row) (s : S) → (t.create r s).0 ≡ ok tt → rows (t.create r s).1 ≡ r ∷ rows s
  pub create_err :
      (r : Row) (s : S) (e : Error) → (t.create r s).0 ≡ err e → rows (t.create r s).1 ≡ rows s
  pub first_rows : (p : Row → Bool) (s : S) → rows (t.first p s).1 ≡ rows s
  pub first_ok :
      (p : Row → Bool) (s : S) (r : Row) → (t.first p s).0 ≡ ok r → (p r ≡ true) × In r (rows s)
  pub first_none :
      (p : Row → Bool) (s : S)
      → (t.first p s).0 ≡ err record_not_found
      → none_passes p (rows s) ≡ true
  pub find_rows : (p : Row → Bool) (s : S) → rows (t.find p s).1 ≡ rows s
  pub find_ok :
      (p : Row → Bool) (s : S) (rs : List Row) → (t.find p s).0 ≡ ok rs → rs ≡ keep p (rows s)
  pub count_where_rows : (p : Row → Bool) (s : S) → rows (t.count_where p s).1 ≡ rows s
  pub count_where_ok :
      (p : Row → Bool) (s : S) (n : ℕ) → (t.count_where p s).0 ≡ ok n → n ≡ count p (rows s)
  pub update_ok :
      (p : Row → Bool) (f : Row → Row) (s : S) (n : ℕ)
      → (t.update p f s).0 ≡ ok n
      → (n ≡ count p (rows s)) × (rows (t.update p f s).1 ≡ updated p f (rows s))
  pub update_err :
      (p : Row → Bool) (f : Row → Row) (s : S) (e : Error)
      → (t.update p f s).0 ≡ err e
      → rows (t.update p f s).1 ≡ rows s
  pub delete_ok :
      (p : Row → Bool) (s : S) (n : ℕ)
      → (t.delete p s).0 ≡ ok n
      → rows (t.delete p s).1 ≡ keep (λ r. if p r then false else true) (rows s)
  pub delete_err :
      (p : Row → Bool) (s : S) (e : Error)
      → (t.delete p s).0 ≡ err e
      → rows (t.delete p s).1 ≡ rows s

-- A database that reports no error but a record that is not found.
pub record IsReliable {S Row : Type 0} (t : Table S Row) (laws : Laws t) : Type 0 where
  pub first_runs :
      (p : Row → Bool) (s : S) (e : Error) → (t.first p s).0 ≡ err e → e ≡ record_not_found
  pub find_runs : (p : Row → Bool) (s : S) → (t.find p s).0 ≡ ok (keep p (laws.rows s))
  pub update_runs :
      (p : Row → Bool) (f : Row → Row) (s : S) → (t.update p f s).0 ≡ ok (count p (laws.rows s))

-- Another table of the same database: the statements on it leave the rows of this one.
pub record Apart {S Row Other : Type 0} (t : Table S Row) (laws : Laws t) (other : Table S Other)
    : Type 0 where
  pub first_apart : (p : Other → Bool) (s : S) → laws.rows (other.first p s).1 ≡ laws.rows s
  pub find_apart : (p : Other → Bool) (s : S) → laws.rows (other.find p s).1 ≡ laws.rows s
  pub update_apart :
      (p : Other → Bool) (f : Other → Other) (s : S)
      → laws.rows (other.update p f s).1 ≡ laws.rows s
  pub count_where_apart :
      (p : Other → Bool) (s : S) → laws.rows (other.count_where p s).1 ≡ laws.rows s
  pub delete_apart : (p : Other → Bool) (s : S) → laws.rows (other.delete p s).1 ≡ laws.rows s
  pub create_apart : (r : Other) (s : S) → laws.rows (other.create r s).1 ≡ laws.rows s
