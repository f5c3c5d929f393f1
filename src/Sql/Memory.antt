-- ===== src/Sql/Memory.antt =====
-- A table kept as a list in a part of the state, which has the laws.
use base_go_api.Prelude.{
  ◌≡◌, refl, sym, ap, inl, inr, Bool, true, false, List, [], ◌∷◌, arith, keep, Bool-cases, ◌∙◌,
  if◌then◌else◌,
}
use base_go_api.Prelude.Outcome.{Outcome, ok, err}
use base_go_api.Sql.Table.{
  Table, Laws, IsReliable, record_not_found, In, count, updated, none_passes,
}
use base_go_api.Errors.{Error}

abbrev pub first_of {ℓ} : {A : Type ℓ} → (A → Bool) → List A → Outcome A
first_of p [] = err record_not_found
first_of p (x ∷ xs) = if p x then ok x else first_of p xs

pub first_of-ok :
    {A : Type 0} (p : A → Bool) (xs : List A) (r : A)
    → first_of p xs ≡ ok r
    → (p r ≡ true) × In r xs
first_of-ok p [] r h = cc
first_of-ok p (x ∷ xs) r h = elim (Bool-cases (p x)) [
  | inl passed ↦ let same : x ≡ r = ground arith in (ap p (sym same) ∙ passed, inl (sym same))
  | inr other ↦ let (passes, there) = first_of-ok p xs r (ground arith) in (passes, inr there)
]

pub first_of-none :
    {A : Type 0} (p : A → Bool) (xs : List A)
    → first_of p xs ≡ err record_not_found
    → none_passes p xs ≡ true
first_of-none p [] h = refl
first_of-none p (x ∷ xs) h = ground (arith, first_of-none p xs)

pub first_of-err :
    {A : Type 0} (p : A → Bool) (xs : List A) (e : Error)
    → first_of p xs ≡ err e
    → e ≡ record_not_found
first_of-err p [] e h = cc
first_of-err p (x ∷ xs) e h = ground (arith, first_of-err p xs e)

module _ {S Row : Type 0} (get : S → List Row) (put : List Row → S → S) where
  -- The table whose rows stand in a part of the state.
  abbrev pub list_table : Table S Row
  list_table = record {
    create = λ r s. (ok tt, put (r ∷ get s) s);
    first = λ p s. (first_of p (get s), s);
    find = λ p s. (ok (keep p (get s)), s);
    update = λ p f s. (ok (count p (get s)), put (updated p f (get s)) s);
    delete = λ p s. (ok (count p (get s)), put (keep (λ r. if p r then false else true) (get s)) s);
    count_where = λ p s. (ok (count p (get s)), s);
  }

  module _ (get_put : (l : List Row) (s : S) → get (put l s) ≡ l) where
    abbrev pub list-Laws : Laws list_table
    list-Laws = record {
      rows = get;
      create_ok = λ r s h. get_put (r ∷ get s) s;
      create_err = λ r s e h. cc;
      first_rows = λ p s. refl;
      first_ok = λ p s r h. first_of-ok p (get s) r h;
      first_none = λ p s h. first_of-none p (get s) h;
      find_rows = λ p s. refl;
      find_ok = λ p s rs h. cc;
      count_where_rows = λ p s. refl;
      count_where_ok = λ p s n h. cc;
      update_ok = λ p f s n h. (cc, get_put (updated p f (get s)) s);
      update_err = λ p f s e h. cc;
      delete_ok = λ p s n h. get_put (keep (λ r. if p r then false else true) (get s)) s;
      delete_err = λ p s e h. cc;
    }

    abbrev pub list-IsReliable : IsReliable list_table list-Laws
    list-IsReliable = record {
      first_runs = λ p s e h. first_of-err p (get s) e h;
      find_runs = λ p s. refl;
      update_runs = λ p f s. refl;
    }
