-- ===== src/Sql/Effects.antt =====
-- What the statements of a repository's method do to the rows, with the errors wrapped and the number
-- of changed rows looked at afterwards.
use base_go_api.Prelude.{ℕ, ◌==◌, ◌≡◌, ap, ◌∙◌, Bool, true, false, List, [], ◌∷◌, inl, inr, arith}
use base_go_api.Prelude.Outcome.{ok, Call, ◌>>=◌, map_err, >>=-eq-ok, map_err-eq-ok, map_err_state}
use base_go_api.Errors.{Error}
use base_go_api.Sql.Table.{Table, Laws, IsReliable, In, count, updated}

-- A row that passes is counted.
pub count-In :
    {Row : Type 0} (p : Row → Bool) (l : List Row) (r : Row)
    → In r l
    → p r ≡ true
    → (count p l == 0) ≡ false
count-In p [] r there passes = elim there [ ]
count-In p (u ∷ l) r (inl same) passes = ground arith
count-In p (u ∷ l) r (inr there) passes = ground (arith, count-In p l r there passes)

module _ {S Row : Type 0} (t : Table S Row) (laws : Laws t) where
  open laws use {rows, first_rows, first_ok, update_ok}

  pub first-ok :
      (f : Error → Error) (p : Row → Bool) (s : S) {r : Row}
      → (map_err f (t.first p) s).0 ≡ ok r
      → (rows (map_err f (t.first p) s).1 ≡ rows s) × (p r ≡ true) × In r (rows s)
  first-ok f p s {r} h =
      let (passes, there) = first_ok p s r (map_err-eq-ok f (t.first p) s h) in
      (ap rows (map_err_state f (t.first p) s) ∙ first_rows p s, passes, there)

  pub update-ok :
      (f : Error → Error) (p : Row → Bool) (g : Row → Row) (k : ℕ → Call S (Unit {0})) (s : S)
      → ((n : ℕ) (u : S) → (k n u).1 ≡ u)
      → ((map_err f (t.update p g) >>= k) s).0 ≡ ok tt
      → rows ((map_err f (t.update p g) >>= k) s).1 ≡ updated p g (rows s)
  update-ok f p g k s keeps h =
      let (n, ran, same, rest) = >>=-eq-ok (map_err f (t.update p g)) k s h in
      let (counted, changed) = update_ok p g s n (map_err-eq-ok f (t.update p g) s ran) in
      rw (same, keeps n (map_err f (t.update p g) s).1, map_err_state f (t.update p g) s) changed

  module _ (sound : IsReliable t laws) where
    open sound use {update_runs}

    -- On a reliable database.
    pub update_runs_lem :
        {A : Type 0} (f : Error → Error) (p : Row → Bool) (g : Row → Row) (k : ℕ → Call S A) (s : S)
        → (map_err f (t.update p g) >>= k) s ≡ k (count p (rows s)) (t.update p g s).1
    update_runs_lem f p g k s = ground (arith, update_runs p g s)
