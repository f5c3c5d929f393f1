-- ===== src/News/Tests.antt =====
-- The news service on a table in memory.
use base_go_api.Prelude.{◌≡◌, refl, ap, false, List, [], ◌∷◌, none, some}
use base_go_api.Prelude.Bytes.{codes}
use base_go_api.Prelude.Outcome.{ok, err}
use base_go_api.Errors.{not_found}
use base_go_api.Sql.Table.{Table, Laws}
use base_go_api.Sql.Memory.{list_table, list-Laws}
use base_go_api.News.Article.{draft, published, News, can_transition_to}
use base_go_api.News.Service.{
  Strings, generate_slug, with_status, find_by_id, find_by_slug, save, create, get_by_slug, move,
  update_status, update, delete,
}
use base_go_api.News.Publishing.{IsDated}
use base_go_api.News.Histories.{created, moved, here, next, Reach-IsDated}
use base_go_api.News.Access.{outsider_changes_nothing}

abbrev articles : Table (List News) News
articles = list_table (λ d. d) (λ l d. l)

abbrev articles-Laws : Laws articles
articles-Laws = list-Laws (λ d. d) (λ l d. l) (λ l d. refl)

-- A library that trims nothing and knows no capitals.
abbrev plain : Strings
plain = record { trim_space = λ s. s; to_lower = λ s. s }

slug_hello : generate_slug plain (codes "my_new post!") ≡ codes "my-new-post"
unfolding generate_slug
slug_hello = refl

abbrev draft_article : News
draft_article = record {
  id = 1;
  author_id = 5;
  title = codes "my post";
  slug = codes "my-post";
  content = codes "text";
  excerpt = [];
  status = draft;
  published_at = none;
}

abbrev published_article : News
published_article = record draft_article { status = published; published_at = some 9 }

create_run :
    create plain articles 1 5 (codes "my post") (codes "text") [] []
    ≡ (ok draft_article, draft_article ∷ [])
unfolding create generate_slug
create_run = refl

publish_run :
    update_status plain articles 9 5 1 published false (draft_article ∷ [])
    ≡ (ok tt, published_article ∷ [])
unfolding update_status move find_by_id save with_status can_transition_to
publish_run = refl

Reach-IsDated_example : IsDated (published_article ∷ [])
Reach-IsDated_example =
    Reach-IsDated plain articles articles-Laws {s = []} {e = published_article ∷ []} tt (
      next (next here (created 1 5 (codes "my post") (codes "text") [] (ap (λ x. x.1) create_run)))
        (moved 9 5 1 published false (ap (λ x. x.1) publish_run)))

found_draft : (find_by_id plain articles 1 (draft_article ∷ [])).0 ≡ ok draft_article
unfolding find_by_id
found_draft = refl

outsider_changes_nothing_example :
    let s = draft_article ∷ [] in
    let moved = update_status plain articles 9 6 1 published false s in
    let revised = update plain articles 9 6 1 (codes "x") (codes "y") [] published false s in
    let removed = delete plain articles 6 1 false s in
    ((moved.0 ≡ err not_found) × (moved.1 ≡ s))
    × ((revised.0 ≡ err not_found) × (revised.1 ≡ s))
    × ((removed.0 ≡ err not_found) × (removed.1 ≡ s))
outsider_changes_nothing_example =
    outsider_changes_nothing plain articles articles-Laws 9 6 1 (codes "x") (codes "y") [] published
      (draft_article ∷ []) {n = draft_article} found_draft refl refl

shown :
    (get_by_slug plain articles (codes "my-post") (published_article ∷ [])).0 ≡ ok published_article
unfolding get_by_slug find_by_slug
shown = refl
