-- ===== src/Webhooks/Manage.antt =====
-- The management of webhooks by internal/service/webhook.go: Create, Update and SoftDelete. The name and
-- the rate limit of a webhook are left out, but for the test of the name.
use base_go_api.Prelude.{
  ℕ, ◌==◌, ◌||◌, Bool, true, false, not, List, Option, none, some, ltb, length, if◌then◌else◌,
}
use base_go_api.Prelude.Bytes.{Bytes, bytes_eq}
use base_go_api.Prelude.Outcome.{Outcome, ok, err, Call, ◌>>=◌, ◌>>◌, pure, fail, map_err}
use base_go_api.Errors.{Error, app, wrap_internal}
use base_go_api.Sql.Results.{at_least_one}
use base_go_api.Ssrf.Validator.{Config, NetLibrary, Resolver, trim_space, validate_url}
use base_go_api.Webhooks.Delivery.{Webhook}
use base_go_api.Webhooks.Repository.{World, find_webhook}
use base_go_api.Webhooks.Service.{validate_events}

pub record CreateRequest : Type 0 where
  pub name : Bytes
  pub url : Bytes
  pub events : List Bytes
  pub active : Option Bool

-- A field that is not given is `none`.
pub record UpdateRequest : Type 0 where
  pub name : Option Bytes
  pub url : Option Bytes
  pub events : List Bytes
  pub active : Option Bool

-- The validator of the service with the resolver of the moment, and the secret that is drawn, or the
-- error of the generator.
pub record Guard : Type 0 where
  pub library : NetLibrary
  pub config : Config
  pub lookup : Resolver
  pub secret : Outcome Bytes

abbrev pub accepts : Guard → Bytes → Bool
accepts g url = validate_url g.library g.config g.lookup url

abbrev pub invalid : Error
invalid = app "VALIDATION_ERROR" 422

-- The test of a name.
abbrev pub bad_name : Bytes → Bool
bad_name name = let n = length (trim_space name) in (n == 0) || ltb 255 n

abbrev pub active_or : Option Bool → Bool → Option Bool
active_or none b = some b
active_or (some a) b = some a

abbrev pub built : CreateRequest → ℕ → Option ℕ → Bytes → Webhook
built r id org secret = record {
  id = id;
  organization_id = org;
  url = r.url;
  secret = secret;
  events = some r.events;
  active = active_or r.active true;
}

-- The fields of a request but for its secret.
abbrev pub with_request : UpdateRequest → Webhook → Webhook
with_request r w = record w {
  url = elim r.url [ none ↦ w.url | some u ↦ u ];
  events = if length r.events == 0 then w.events else some r.events;
  active = elim r.active [ none ↦ w.active | some b ↦ some b ];
}

abbrev pub url_changed : UpdateRequest → Webhook → Bool
url_changed r w = elim r.url [ none ↦ false | some u ↦ not (bytes_eq u w.url) ]

-- Whether a field that is given is refused.
abbrev pub refused_name : UpdateRequest → Bool
refused_name r = elim r.name [ none ↦ false | some n ↦ bad_name n ]

abbrev pub refused_url : Guard → Option Bytes → Bool
refused_url g none = false
refused_url g (some u) = not (accepts g u)

abbrev pub refused_events : UpdateRequest → Bool
refused_events r =
    if length r.events == 0
    then false
    else elim (validate_events r.events) [ ok u ↦ false | err e ↦ true ]

abbrev pub refused : Guard → UpdateRequest → Bool
refused g r = refused_name r || (refused_url g r.url || refused_events r)

module _ {S : Type 0} (world : World S) where
  unfoldable pub create : Guard → ℕ → Option ℕ → CreateRequest → Call S Webhook
  unfolding validate_events
  create g id org r =
      if bad_name r.name
      then fail invalid
      else if not (accepts g r.url)
      then fail invalid
      else elim (validate_events r.events) [
        | err e ↦ fail e
        | ok u ↦ elim g.secret [
          | err e ↦ fail (wrap_internal e)
          | ok secret ↦
              map_err wrap_internal
                (map_err wrap_internal (world.webhooks.create (built r id org secret)))
              >> pure (built r id org secret)
        ]
      ]

  -- `Save` of the repository, of a webhook that was read.
  unfoldable pub save : Webhook → Call S (Unit {0})
  save w =
      map_err wrap_internal (world.webhooks.update (λ x. x.id == w.id) (λ x. w)) >>= at_least_one

  -- The update of a webhook that was read.
  unfoldable pub revise : Guard → UpdateRequest → Webhook → Call S Webhook
  unfolding save
  revise g r w =
      if refused g r
      then fail invalid
      else if url_changed r w
      then elim g.secret [
        | err e ↦ fail (wrap_internal e)
        | ok secret ↦
            map_err wrap_internal (save (record (with_request r w) { secret = secret }))
            >> pure (record (with_request r w) { secret = secret })
      ]
      else (map_err wrap_internal (save (with_request r w)) >> pure (with_request r w))

  unfoldable pub update : Guard → ℕ → UpdateRequest → Call S Webhook
  unfolding find_webhook revise
  update g id r = find_webhook world id >>= revise g r

  unfoldable pub soft_delete : ℕ → Call S (Unit {0})
  soft_delete id = map_err wrap_internal (world.webhooks.delete (λ w. w.id == id)) >>= at_least_one
