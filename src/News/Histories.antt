-- ===== src/News/Histories.antt =====
-- Histories of the news service: calls in any order, by any users, with any outcome.
use base_go_api.Prelude.{
  ℕ, ◌&&◌, ◌||◌, ◌≡◌, sym, ◌∙◌, subst, Bool, true, not, arith, inl, inr, Bool-cases, if◌then◌else◌,
}
use base_go_api.Prelude.Bytes.{Bytes}
use base_go_api.Prelude.Keeping.{bind_leads}
use base_go_api.Prelude.Outcome.{pure}
use base_go_api.Sql.Table.{Table, Laws}
use base_go_api.News.Article.{
  Status, other, status_eq, is_valid_news_status, News, can_transition_to,
}
use base_go_api.News.Service.{
  Strings, with_status, with_fields, find_by_id, save, create, denied, update_status, revise,
  update, delete,
}
use base_go_api.News.Publishing.{
  dated, IsDated, Dated, dated-with_status, dated-with_fields, dated_row, find_by_id-ok, save_leads,
  create_leads, update_status_leads, delete_leads, find_by_id_rows,
}

module _ (lib : Strings) {S : Type 0} (articles : Table S News) (laws : Laws articles) where
  open laws use {rows}

  revise_leads :
      (now user : ℕ) (title content excerpt : Bytes) (new : Status) (is_admin : Bool) (n : News)
      (s : S)
      → Dated lib articles laws s
      → dated n ≡ true
      → Dated lib articles laws
          (revise lib articles now user title content excerpt new is_admin n s).1
  unfolding revise
  revise_leads now user title content excerpt new is_admin n s h d =
      let changes = not (status_eq new (other "")) && not (status_eq new n.status) in
      let base = if changes then with_status lib now new n else n in
      let m = with_fields lib title content excerpt base in
      let kept : dated base ≡ true = ground (arith, dated-with_status lib now new n) in
      let saved =
        save_leads lib articles laws m s h
          (dated-with_fields lib title content excerpt base ∙ kept) in
      let written =
        bind_leads (Dated lib articles laws) (save lib articles m) (λ _. pure m) s (λ e x. saved)
          (λ u x. saved) in
      elim (Bool-cases (denied lib articles is_admin user n)) [
        | inl no_right ↦ rw no_right h
        | inr right ↦
            elim (Bool-cases
              (changes && (not (is_valid_news_status new) || not (can_transition_to n new)))) [
                | inl wrong ↦ rw (right, wrong) h
                | inr may ↦ rw (right, may) written
              ]
      ]

  update_leads :
      (now user id : ℕ) (title content excerpt : Bytes) (new : Status) (is_admin : Bool) (s : S)
      → Dated lib articles laws s
      → Dated lib articles laws
          (update lib articles now user id title content excerpt new is_admin s).1
  unfolding update
  update_leads now user id title content excerpt new is_admin s h =
      let kept : Dated lib articles laws (find_by_id lib articles id s).1 =
        subst IsDated (sym (find_by_id_rows lib articles laws id s)) h in
      bind_leads (Dated lib articles laws) (find_by_id lib articles id)
        (revise lib articles now user title content excerpt new is_admin) s (λ e x. kept)
        (λ n x.
          let (same, named, there) = find_by_id-ok lib articles laws id s x in
          revise_leads now user title content excerpt new is_admin n _ kept
            (dated_row (rows s) n h there))

  -- A call that changes articles, and the state after it, with whatever outcome.
  pub data Step (s : S) (e : S) : Type 0 where
    created :
        (row author : ℕ) (title content excerpt : Bytes)
        → (create lib articles row author title content excerpt s).1 ≡ e
        → Step s e
    moved :
        (now user id : ℕ) (new : Status) (is_admin : Bool)
        → (update_status lib articles now user id new is_admin s).1 ≡ e
        → Step s e
    revised :
        (now user id : ℕ) (title content excerpt : Bytes) (new : Status) (is_admin : Bool)
        → (update lib articles now user id title content excerpt new is_admin s).1 ≡ e
        → Step s e
    removed :
        (user id : ℕ) (is_admin : Bool) → (delete lib articles user id is_admin s).1 ≡ e → Step s e

  pub data Reach (s : S) : S → Type 0 where
    here : Reach s s
    next : {e f : S} → Reach s e → Step e f → Reach s f

  Step-IsDated : {s e : S} → Step s e → IsDated (rows s) → IsDated (rows e)
  Step-IsDated {s} (created row author title content excerpt h) i =
      subst (Dated lib articles laws) h
        (create_leads lib articles laws row author title content excerpt s i)
  Step-IsDated {s} (moved now user id new is_admin h) i =
      subst (Dated lib articles laws) h
        (update_status_leads lib articles laws now user id new is_admin s i)
  Step-IsDated {s} (revised now user id title content excerpt new is_admin h) i =
      subst (Dated lib articles laws) h
        (update_leads now user id title content excerpt new is_admin s i)
  Step-IsDated {s} (removed user id is_admin h) i =
      subst (Dated lib articles laws) h (delete_leads lib articles laws user id is_admin s i)

  -- Whatever articles were created, moved, revised and deleted, and whatever failed on the way, each
  -- article that is published has an instant of publication, if each had at the start.
  pub Reach-IsDated : {s e : S} → IsDated (rows s) → Reach s e → IsDated (rows e)
  Reach-IsDated i here = i
  Reach-IsDated i (next r step) = Step-IsDated step (Reach-IsDated i r)
