-- ===== src/News/Article.antt =====
-- internal/domain/news.go. A text is the list of its runes; tags, metadata and the instants of creation
-- and change are left out.
use base_go_api.Prelude.{ℕ, ◌==◌, ◌||◌, String, Bool, true, false, Option, some, str_eq}
use base_go_api.Prelude.Bytes.{Bytes}

-- A `NewsStatus` is a string: one of the three constants, or any other.
pub data Status : Type 0 where
  draft published archived : Status
  other : String → Status

abbrev pub status_eq : Status → Status → Bool
status_eq draft draft = true
status_eq published published = true
status_eq archived archived = true
status_eq (other a) (other b) = str_eq a b
status_eq _ _ = false

abbrev pub is_valid_news_status : Status → Bool
is_valid_news_status draft = true
is_valid_news_status published = true
is_valid_news_status archived = true
is_valid_news_status (other s) = false

pub record News : Type 0 where
  pub id : ℕ
  pub author_id : ℕ
  pub title : Bytes
  pub slug : Bytes
  pub content : Bytes
  pub excerpt : Bytes
  pub status : Status
  pub published_at : Option ℕ

abbrev transition : Status → Status → Bool
transition draft new = status_eq new published || status_eq new archived
transition published new = status_eq new archived
transition archived new = status_eq new draft
transition (other s) new = false

unfoldable pub can_transition_to : News → Status → Bool
can_transition_to n new = transition n.status new

-- `SetPublishedAt`, with the instant of its clock.
abbrev pub set_published_at : ℕ → News → News
set_published_at now n = record n { published_at = some now }

abbrev pub is_published : News → Bool
is_published n = status_eq n.status published

abbrev pub is_owned_by : ℕ → News → Bool
is_owned_by user n = n.author_id == user
