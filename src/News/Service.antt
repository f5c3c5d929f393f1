-- ===== src/News/Service.antt =====
-- internal/service/news.go over internal/repository/news.go. The functions of the package strings are
-- parameters; the events that follow a change are left out.
use base_go_api.Prelude.{
  ℕ, ◌==◌, ◌&&◌, ◌||◌, Bool, not, [], map, keep, none, some, leb, if◌then◌else◌,
}
use base_go_api.Prelude.Bytes.{Bytes, bytes_eq}
use base_go_api.Prelude.Outcome.{Call, ◌>>=◌, pure, fail, map_err}
use base_go_api.Errors.{Error, app, not_found, wrap_internal}
use base_go_api.Sql.Table.{Table}
use base_go_api.Sql.Results.{missing_or_internal, at_least_one}
use base_go_api.News.Article.{
  Status, draft, published, other, status_eq, is_valid_news_status, News, can_transition_to,
  set_published_at, is_published, is_owned_by,
}

abbrev pub invalid : Error
invalid = app "VALIDATION_ERROR" 422

-- `strings.TrimSpace` and `strings.ToLower`.
pub record Strings : Type 0 where
  pub trim_space : Bytes → Bytes
  pub to_lower : Bytes → Bytes

-- A rune between two others, and the runes that a slug may hold.
abbrev pub between : ℕ → ℕ → ℕ → Bool
between lo hi r = leb lo r && leb r hi

abbrev pub allowed : ℕ → Bool
allowed r = between 97 122 r || (between 48 57 r || (r == 45))

-- `strings.ReplaceAll` of one rune by another.
abbrev pub replace_all : ℕ → ℕ → Bytes → Bytes
replace_all old new s = map (λ r. if r == old then new else r) s

unfoldable pub generate_slug : Strings → Bytes → Bytes
generate_slug lib title = keep allowed (replace_all 95 45 (replace_all 32 45 (lib.to_lower title)))

module _ (lib : Strings) where
  abbrev pub blank : Bytes → Bool
  blank s = bytes_eq (lib.trim_space s) []

  -- The new status, with the instant of publication where it has none yet.
  unfoldable pub with_status : ℕ → Status → News → News
  with_status now new n =
      let m = record n { status = new } in
      if status_eq new published
      then elim n.published_at [ none ↦ set_published_at now m | some t ↦ m ]
      else m

  -- The fields that `Update` replaces.
  unfoldable pub with_fields : Bytes → Bytes → Bytes → News → News
  with_fields title content excerpt n =
      let titled =
        if blank title then n else record n { title = title; slug = generate_slug lib title } in
      let filled = if blank content then titled else record titled { content = content } in
      if bytes_eq excerpt [] then filled else record filled { excerpt = excerpt }

module _ (lib : Strings) {S : Type 0} (articles : Table S News) where
  unfoldable pub find_by_id : ℕ → Call S News
  find_by_id id = map_err missing_or_internal (articles.first (λ n. n.id == id))

  unfoldable pub find_by_slug : Bytes → Call S News
  find_by_slug slug = map_err missing_or_internal (articles.first (λ n. bytes_eq n.slug slug))

  -- `Save` of an article that has been read: the row of its identifier is replaced.
  unfoldable pub save : News → Call S (Unit {0})
  save n = map_err wrap_internal (articles.update (λ m. m.id == n.id) (λ _. n)) >>= at_least_one

  unfoldable pub soft_delete : ℕ → Call S (Unit {0})
  soft_delete id = map_err wrap_internal (articles.delete (λ n. n.id == id)) >>= at_least_one

  -- `Create`, with the identifier that the database draws.
  unfoldable pub create : ℕ → ℕ → Bytes → Bytes → Bytes → Call S News
  create row author title content excerpt =
      let n : News = record {
        id = row;
        author_id = author;
        title = title;
        slug = generate_slug lib title;
        content = content;
        excerpt = excerpt;
        status = draft;
        published_at = none;
      } in
      if blank lib title || blank lib content
      then fail invalid
      else map_err wrap_internal (articles.create n) >>= (λ _. pure n)

  -- `!isAdmin && !news.IsOwnedBy(userID)`
  abbrev pub denied : Bool → ℕ → News → Bool
  denied is_admin user n = not is_admin && not (is_owned_by user n)

  unfoldable pub get_by_id : ℕ → ℕ → Bool → Call S News
  unfolding find_by_id
  get_by_id user id is_admin =
      find_by_id id >>= λ n. if denied is_admin user n then fail not_found else pure n

  unfoldable pub get_by_slug : Bytes → Call S News
  unfolding find_by_slug
  get_by_slug slug = find_by_slug slug >>= λ n. if is_published n then pure n else fail not_found

  unfoldable pub get_by_slug_with_auth : ℕ → Bytes → Bool → Call S News
  unfolding find_by_slug
  get_by_slug_with_auth user slug is_admin = find_by_slug slug >>= λ n.
      if not (is_published n) && denied is_admin user n then fail not_found else pure n

  unfoldable pub move : ℕ → ℕ → Status → Bool → News → Call S (Unit {0})
  unfolding save
  move now user new is_admin n =
      if denied is_admin user n
      then fail not_found
      else if not (can_transition_to n new)
      then fail invalid
      else save (with_status lib now new n)

  unfoldable pub update_status : ℕ → ℕ → ℕ → Status → Bool → Call S (Unit {0})
  unfolding find_by_id move
  update_status now user id new is_admin =
      if not (is_valid_news_status new)
      then fail invalid
      else find_by_id id >>= move now user new is_admin

  -- What `Update` does with the article that it has read; an empty status is no change.
  unfoldable pub revise : ℕ → ℕ → Bytes → Bytes → Bytes → Status → Bool → News → Call S News
  unfolding save
  revise now user title content excerpt new is_admin n =
      let changes = not (status_eq new (other "")) && not (status_eq new n.status) in
      let m =
        with_fields lib title content excerpt (if changes then with_status lib now new n else n) in
      if denied is_admin user n
      then fail not_found
      else if changes && (not (is_valid_news_status new) || not (can_transition_to n new))
      then fail invalid
      else save m >>= (λ _. pure m)

  unfoldable pub update : ℕ → ℕ → ℕ → Bytes → Bytes → Bytes → Status → Bool → Call S News
  unfolding find_by_id revise
  update now user id title content excerpt new is_admin =
      find_by_id id >>= revise now user title content excerpt new is_admin

  unfoldable pub delete : ℕ → ℕ → Bool → Call S (Unit {0})
  unfolding find_by_id soft_delete
  delete user id is_admin =
      find_by_id id >>= λ n. if denied is_admin user n then fail not_found else soft_delete id
