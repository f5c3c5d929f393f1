-- ===== src/News/Publishing.antt =====
-- What the calls of the news service keep and refuse.
use base_go_api.Prelude.{
  ℕ, ◌==◌, ◌||◌, ◌≡◌, refl, ap, sym, ◌∙◌, subst, Bool, true, false, not, List, [], ◌∷◌, keep, none,
  some, All, arith, inl, inr, Bool-cases, if◌then◌else◌,
}
use base_go_api.Prelude.Bytes.{Bytes}
use base_go_api.Prelude.Keeping.{bind_leads}
use base_go_api.Prelude.Outcome.{Outcome, ok, err, pure, fail, map_err, map_err_state}
use base_go_api.Errors.{not_found, wrap_internal}
use base_go_api.Sql.Table.{Table, Laws, In, updated}
use base_go_api.Sql.Effects.{first-ok}
use base_go_api.Sql.Results.{missing_or_internal, at_least_one}
use base_go_api.News.Article.{
  Status, draft, is_valid_news_status, News, can_transition_to, is_published,
}
use base_go_api.News.Service.{
  Strings, allowed, generate_slug, replace_all, blank, with_status, with_fields, find_by_id, save,
  soft_delete, create, denied, move, update_status, delete,
}

-- An article that is published has an instant of publication.
abbrev pub dated : News → Bool
dated n = elim n.published_at [ none ↦ not (is_published n) | some t ↦ true ]

abbrev pub IsDated : List News → Type 0
IsDated rows = All (λ n. dated n ≡ true) rows

pub dated-with_status :
    (lib : Strings) (now : ℕ) (new : Status) (n : News) → dated (with_status lib now new n) ≡ true
unfolding with_status
dated-with_status lib now new n = ground arith

pub dated-with_fields :
    (lib : Strings) (title content excerpt : Bytes) (n : News)
    → dated (with_fields lib title content excerpt n) ≡ dated n
unfolding with_fields
dated-with_fields lib title content excerpt n = ground arith

pub dated_row : (rows : List News) (n : News) → IsDated rows → In n rows → dated n ≡ true
dated_row [] n h there = elim there [ ]
dated_row (m ∷ rows) n (d, ds) (inl same) = ap dated same ∙ d
dated_row (m ∷ rows) n (d, ds) (inr there) = dated_row rows n ds there

updated-IsDated :
    (p : News → Bool) (new : News) (rows : List News)
    → dated new ≡ true
    → IsDated rows
    → IsDated (updated p (λ _. new) rows)
updated-IsDated p new [] d h = tt
updated-IsDated p new (m ∷ rows) d (e, es) = (ground arith, updated-IsDated p new rows d es)

keep-IsDated : (p : News → Bool) (rows : List News) → IsDated rows → IsDated (keep p rows)
keep-IsDated p [] h = tt
keep-IsDated p (m ∷ rows) (e, es) = elim (Bool-cases (p m)) [
  | inl kept ↦ rw kept (e, keep-IsDated p rows es)
  | inr gone ↦ rw gone (keep-IsDated p rows es)
]

allowed-keep : (s : Bytes) → All (λ r. allowed r ≡ true) (keep allowed s)
allowed-keep [] = tt
allowed-keep (r ∷ s) = elim (Bool-cases (allowed r)) [
  | inl kept ↦ rw kept (kept, allowed-keep s)
  | inr gone ↦ rw gone (allowed-keep s)
]

-- Each rune of a generated slug is a lower-case letter, a digit or a hyphen, whatever the title and
-- whatever the library makes of its letters.
pub allowed-generate_slug :
    (lib : Strings) (title : Bytes) → All (λ r. allowed r ≡ true) (generate_slug lib title)
unfolding generate_slug
allowed-generate_slug lib title =
    allowed-keep (replace_all 95 45 (replace_all 32 45 (lib.to_lower title)))

module _ (lib : Strings) {S : Type 0} (articles : Table S News) (laws : Laws articles) where
  open laws use {rows}

  abbrev pub Dated : S → Type 0
  Dated s = IsDated (rows s)

  pub find_by_id-ok :
      (id : ℕ) (s : S) {n : News}
      → (find_by_id lib articles id s).0 ≡ ok n
      → (rows (find_by_id lib articles id s).1 ≡ rows s) × ((n.id == id) ≡ true) × In n (rows s)
  unfolding find_by_id
  find_by_id-ok id s h = first-ok articles laws missing_or_internal (λ n. n.id == id) s h

  pub find_by_id_rows : (id : ℕ) (s : S) → rows (find_by_id lib articles id s).1 ≡ rows s
  unfolding find_by_id
  find_by_id_rows id s =
      ap rows (map_err_state missing_or_internal (articles.first (λ n. n.id == id)) s)
      ∙ laws.first_rows (λ n. n.id == id) s

  pub save_leads : (n : News) (s : S) → Dated s → dated n ≡ true → Dated (save lib articles n s).1
  unfolding save
  save_leads n s h d =
      let p = λ (m : News). m.id == n.id in
      let left : Dated (articles.update p (λ _. n) s).1 =
        go (articles.update p (λ _. n) s).0 refl in
      let wrapped : Dated (map_err wrap_internal (articles.update p (λ _. n)) s).1 =
        subst IsDated (sym (ap rows (map_err_state wrap_internal (articles.update p (λ _. n)) s)))
          left in
      bind_leads Dated (map_err wrap_internal (articles.update p (λ _. n))) at_least_one s
        (λ e x. wrapped) (λ k x. subst Dated (sym (at_least_one_state k _)) wrapped)
    where
      at_least_one_state : (k : ℕ) (u : S) → (at_least_one k u).1 ≡ u
      at_least_one_state k u = ground arith

      go :
          (o : Outcome ℕ)
          → (articles.update (λ m. m.id == n.id) (λ _. n) s).0 ≡ o
          → Dated (articles.update (λ m. m.id == n.id) (λ _. n) s).1
      go (ok k) e =
          subst IsDated (sym (laws.update_ok _ (λ _. n) s k e).1)
            (updated-IsDated (λ m. m.id == n.id) n (rows s) d h)
      go (err x) e = subst IsDated (sym (laws.update_err _ (λ _. n) s x e)) h

  soft_delete_leads : (id : ℕ) (s : S) → Dated s → Dated (soft_delete lib articles id s).1
  unfolding soft_delete
  soft_delete_leads id s h =
      let p = λ (m : News). m.id == id in
      let left : Dated (articles.delete p s).1 = go (articles.delete p s).0 refl in
      let wrapped : Dated (map_err wrap_internal (articles.delete p) s).1 =
        subst IsDated (sym (ap rows (map_err_state wrap_internal (articles.delete p) s))) left in
      bind_leads Dated (map_err wrap_internal (articles.delete p)) at_least_one s (λ e x. wrapped)
        (λ k x. subst Dated (sym (at_least_one_state k _)) wrapped)
    where
      at_least_one_state : (k : ℕ) (u : S) → (at_least_one k u).1 ≡ u
      at_least_one_state k u = ground arith

      go :
          (o : Outcome ℕ)
          → (articles.delete (λ m. m.id == id) s).0 ≡ o
          → Dated (articles.delete (λ m. m.id == id) s).1
      go (ok k) e =
          subst IsDated (sym (laws.delete_ok (λ m. m.id == id) s k e))
            (keep-IsDated (λ m. if m.id == id then false else true) (rows s) h)
      go (err x) e = subst IsDated (sym (laws.delete_err (λ m. m.id == id) s x e)) h

  pub create_leads :
      (row author : ℕ) (title content excerpt : Bytes) (s : S)
      → Dated s
      → Dated (create lib articles row author title content excerpt s).1
  unfolding create
  create_leads row author title content excerpt s h =
      elim (Bool-cases (blank lib title || blank lib content)) [
        | inl empty ↦ rw empty h
        | inr filled ↦
            let left : Dated (articles.create n s).1 = go (articles.create n s).0 refl in
            rw filled (
              bind_leads Dated (map_err wrap_internal (articles.create n)) (λ _. pure n) s
                (λ e x. wrap left) (λ u x. wrap left))
      ]
    where
      n : News
      n = record {
        id = row;
        author_id = author;
        title = title;
        slug = generate_slug lib title;
        content = content;
        excerpt = excerpt;
        status = draft;
        published_at = none;
      }

      wrap : Dated (articles.create n s).1 → Dated (map_err wrap_internal (articles.create n) s).1
      wrap left =
          subst IsDated (sym (ap rows (map_err_state wrap_internal (articles.create n) s))) left

      go : (o : Outcome (Unit {0})) → (articles.create n s).0 ≡ o → Dated (articles.create n s).1
      go (ok tt) e = subst IsDated (sym (laws.create_ok n s e)) (refl, h)
      go (err x) e = subst IsDated (sym (laws.create_err n s x e)) h

  move_leads :
      (now user : ℕ) (new : Status) (is_admin : Bool) (n : News) (s : S)
      → Dated s
      → Dated (move lib articles now user new is_admin n s).1
  unfolding move
  move_leads now user new is_admin n s h =
      let saved = save_leads (with_status lib now new n) s h (dated-with_status lib now new n) in
      elim (Bool-cases (denied lib articles is_admin user n)) [
        | inl no_right ↦ rw no_right h
        | inr right ↦ elim (Bool-cases (can_transition_to n new)) [
          | inl may ↦ rw (right, may) saved
          | inr may_not ↦ rw (right, may_not) h
        ]
      ]

  pub update_status_leads :
      (now user id : ℕ) (new : Status) (is_admin : Bool) (s : S)
      → Dated s
      → Dated (update_status lib articles now user id new is_admin s).1
  unfolding update_status
  update_status_leads now user id new is_admin s h =
      let kept : Dated (find_by_id lib articles id s).1 =
        subst IsDated (sym (find_by_id_rows id s)) h in
      elim (Bool-cases (is_valid_news_status new)) [
        | inl valid ↦ rw valid (
            bind_leads Dated (find_by_id lib articles id) (move lib articles now user new is_admin)
              s (λ e x. kept) (λ n x. move_leads now user new is_admin n _ kept))
        | inr wrong ↦ rw wrong h
      ]

  pub delete_leads :
      (user id : ℕ) (is_admin : Bool) (s : S)
      → Dated s
      → Dated (delete lib articles user id is_admin s).1
  unfolding delete
  delete_leads user id is_admin s h =
      let kept : Dated (find_by_id lib articles id s).1 =
        subst IsDated (sym (find_by_id_rows id s)) h in
      bind_leads Dated (find_by_id lib articles id)
        (λ n.
          if denied lib articles is_admin user n
          then fail not_found
          else soft_delete lib articles id)
        s (λ e x. kept)
        (λ n x. elim (Bool-cases (denied lib articles is_admin user n)) [
          | inl no_right ↦ rw no_right kept
          | inr right ↦ rw right (soft_delete_leads id _ kept)
        ])
