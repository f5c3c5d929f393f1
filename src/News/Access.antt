-- ===== src/News/Access.antt =====
-- Who may change and who may read an article.
use base_go_api.Prelude.{ℕ, ◌≡◌, subst, true, false, arith, if◌then◌else◌}
use base_go_api.Prelude.Bytes.{Bytes, bytes_eq}
use base_go_api.Prelude.Outcome.{ok, err, pure, fail, >>=-eq-ok}
use base_go_api.Errors.{not_found}
use base_go_api.Sql.Table.{Table, Laws, In}
use base_go_api.Sql.Effects.{first-ok}
use base_go_api.Sql.Results.{missing_or_internal}
use base_go_api.News.Article.{Status, is_valid_news_status, News, is_published, is_owned_by}
use base_go_api.News.Service.{
  Strings, find_by_id, find_by_slug, get_by_slug, move, update_status, revise, update, delete,
}
use base_go_api.News.Publishing.{find_by_id_rows}

module _ (lib : Strings) {S : Type 0} (articles : Table S News) (laws : Laws articles) where
  open laws use {rows}

  -- A user who is neither the author of an article that is found nor an admin: `UpdateStatus` to a
  -- valid status, `Update` and `Delete` answer ErrNotFound, as for an article that is not there, and
  -- change nothing.
  pub outsider_changes_nothing :
      (now user id : ℕ) (title content excerpt : Bytes) (new : Status) (s : S) {n : News}
      → (find_by_id lib articles id s).0 ≡ ok n
      → is_owned_by user n ≡ false
      → is_valid_news_status new ≡ true
      → let moved = update_status lib articles now user id new false s in
        let revised = update lib articles now user id title content excerpt new false s in
        let removed = delete lib articles user id false s in
        ((moved.0 ≡ err not_found) × (rows moved.1 ≡ rows s))
        × ((revised.0 ≡ err not_found) × (rows revised.1 ≡ rows s))
        × ((removed.0 ≡ err not_found) × (rows removed.1 ≡ rows s))
  unfolding update_status update delete move revise
  outsider_changes_nothing now user id title content excerpt new s found foreign valid =
      let same = find_by_id_rows lib articles laws id s in
      (
        (ground arith, ground (arith, same)),
        (ground arith, ground (arith, same)),
        (ground arith, ground (arith, same)),
      )

  -- The public reading by slug gives only a stored article with that slug that is published.
  pub get_by_slug_published :
      (slug : Bytes) (s : S) {n : News}
      → (get_by_slug lib articles slug s).0 ≡ ok n
      → (is_published n ≡ true) × (bytes_eq n.slug slug ≡ true) × In n (rows s)
  unfolding get_by_slug find_by_slug
  get_by_slug_published slug s {n} h =
      let m = find_by_slug lib articles slug in
      let f = λ (a : News). if is_published a then pure a else fail not_found in
      let (a, found, same, rest) = >>=-eq-ok m f s h in
      let (keeps, named, there) =
        first-ok articles laws missing_or_internal (λ (b : News). bytes_eq b.slug slug) s found in
      let shown : (is_published a ≡ true) × (a ≡ n) = ground arith in
      let (open_to_all, it) = shown in
      subst (λ b. (is_published b ≡ true) × (bytes_eq b.slug slug ≡ true) × In b (rows s)) it
        (open_to_all, named, there)
