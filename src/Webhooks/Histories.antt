-- ===== src/Webhooks/Histories.antt =====
-- Histories of deliveries: events dispatched and deliveries replayed by internal/service/webhook.go, runs
-- of the worker and of its reaper, in any order and with any outcome.
use base_go_api.Prelude.{
  ℕ, ◌+◌, ◌≤◌, ◌≡◌, refl, sym, subst, Bool, true, false, not, List, [], ◌∷◌, All, arith, ltb, ◌*◌,
  if◌then◌else◌,
}
use base_go_api.Prelude.Bytes.{Bytes}
use base_go_api.Prelude.Keeping.{Keeps, pure-Keeps, fail-Keeps, bind-Keeps, map_err-Keeps, if-Keeps}
use base_go_api.Prelude.Outcome.{Outcome, ok, err, Call, pure, fail, map_err, ◌>>◌}
use base_go_api.Errors.{app, wrap_internal}
use base_go_api.Sql.Table.{Laws}
use base_go_api.Webhooks.Delivery.{Webhook, WebhookDelivery, can_replay, replay}
use base_go_api.Webhooks.Repository.{
  World, in_scope, find_for_event_dispatch, create_delivery, find_delivery, update_status,
  delete_older_than,
}
use base_go_api.Webhooks.Worker.{Times, quietly, process_delivery, reap}
use base_go_api.Webhooks.Service.{
  Settings, Event, attempt_limit, is_matched, limited_delivery, queued_delivery, dispatch_queued,
  dispatch_one, dispatch_each, dispatch_event, replay_read, replay_delivery,
}
use base_go_api.Webhooks.Bounded.{IsWithin, keep-All, IsApart}
use base_go_api.Webhooks.WorkerBound.{
  Within, kept_rows, update_status-Keeps, quietly-Keeps, after_allow, process_delivery-Keeps,
}
use base_go_api.Webhooks.Found.{find_delivery_rows}
use base_go_api.Webhooks.ReaperBound.{reap-Keeps}

-- What the dispatch reaches besides leaves the rows of the deliveries.
pub record IsApartToo {S : Type 0} (world : World S) (laws : Laws world.deliveries) : Type 0 where
  pub find_apart :
      (p : Webhook → Bool) (s : S) → laws.rows (world.webhooks.find p s).1 ≡ laws.rows s
  pub enqueue_apart : (id : ℕ) (s : S) → laws.rows (world.enqueue id s).1 ≡ laws.rows s

module _ {S : Type 0} (world : World S) (laws : Laws world.deliveries) (apart : IsApart world laws)
    (apart_too : IsApartToo world laws) (cap : ℕ → ℕ) where
  open laws use {rows, create_ok, create_err, delete_ok, delete_err}

  abbrev pub InBounds : S → Type 0
  InBounds = Within world laws apart cap

  create_delivery-Keeps :
      (d : WebhookDelivery) → IsWithin cap d → Keeps InBounds (create_delivery world d)
  unfolding create_delivery
  create_delivery-Keeps d within =
      map_err-Keeps InBounds wrap_internal (world.deliveries.create d)
        (λ s h. go s h (world.deliveries.create d s).0 refl)
    where
      go :
          (s : S)
          → InBounds s
          → (o : Outcome (Unit {0})) → (world.deliveries.create d s).0 ≡ o
          → InBounds (world.deliveries.create d s).1
      go s h (ok u) e = subst (All (IsWithin cap)) (sym (create_ok d s e)) (within, h)
      go s h (err x) e = kept_rows world laws apart cap (create_err d s x e) h

  find_delivery-Keeps : (id : ℕ) → Keeps InBounds (find_delivery world id)
  find_delivery-Keeps id s h = kept_rows world laws apart cap (find_delivery_rows world laws id s) h

  -- Every limit is 1 at least.
  abbrev pub IsPositive : Type 0
  IsPositive = (id : ℕ) → 1 ≤ cap id

  replay_delivery-Keeps : IsPositive → (id : ℕ) → Keeps InBounds (replay_delivery world id)
  unfolding replay_delivery replay_read replay
  replay_delivery-Keeps positive id =
      bind-Keeps InBounds (find_delivery world id) (replay_read world id) (find_delivery-Keeps id)
        (λ d.
          if-Keeps InBounds (not (can_replay d)) (fail (app "CONFLICT" 409))
            (map_err wrap_internal (update_status world id replay) >> find_delivery world id)
            (fail-Keeps InBounds WebhookDelivery (app "CONFLICT" 409))
            (bind-Keeps InBounds (map_err wrap_internal (update_status world id replay))
              (λ u. find_delivery world id)
              (map_err-Keeps InBounds wrap_internal (update_status world id replay) (
                update_status-Keeps world laws apart cap id replay (λ r same (limit_is, low, high).
                  let least = positive r.id in (limit_is, omega arith, omega arith))))
              (λ u. find_delivery-Keeps id)))

  -- The identifiers that a dispatch draws have the limits that it writes.
  abbrev pub IsDrawn : Settings → (Bool → Webhook → ℕ) → Type 0
  IsDrawn cfg draw =
      (w : Webhook) → (cap (draw true w) ≡ 3) × (cap (draw false w) ≡ attempt_limit cfg)

  module _ (positive : IsPositive) (cfg : Settings) (e : Event) (now : ℕ)
      (draw : Bool → Webhook → ℕ) (drawn : IsDrawn cfg draw) where
    dispatch_queued-Keeps :
        (w : Webhook) → Keeps InBounds (dispatch_queued world cfg e now (draw false w) w)
    unfolding dispatch_queued
    dispatch_queued-Keeps w = go e.payload
      where
        go :
            (o : Outcome Bytes)
            → Keeps InBounds (elim o [
              | err x ↦ fail x
              | ok b ↦
                  create_delivery world (queued_delivery cfg e now (draw false w) b w)
                  >> (if cfg.has_queue then world.enqueue (draw false w) else pure tt)
            ])
        go (err x) = fail-Keeps InBounds (Unit {0}) x
        go (ok b) =
            let fits = (drawn w).1 in
            let least = positive (draw false w) in
            bind-Keeps InBounds
              (create_delivery world (queued_delivery cfg e now (draw false w) b w))
              (λ u. if cfg.has_queue then world.enqueue (draw false w) else pure tt)
              (create_delivery-Keeps (queued_delivery cfg e now (draw false w) b w)
                (sym fits, omega arith, omega arith))
              (λ u.
                if-Keeps InBounds cfg.has_queue (world.enqueue (draw false w)) (pure tt)
                  (λ s h.
                    kept_rows world laws apart cap (apart_too.enqueue_apart (draw false w) s) h)
                  (pure-Keeps InBounds tt))

    dispatch_one-Keeps : (w : Webhook) → Keeps InBounds (dispatch_one world cfg e now draw w)
    unfolding dispatch_one
    dispatch_one-Keeps w =
        let queue = dispatch_queued world cfg e now (draw false w) w in
        let limited = quietly (create_delivery world (limited_delivery e now (draw true w) w)) in
        let asked : Call S (Unit {0}) =
          λ s. let (allowed, s1) = world.allow w.id s in (if allowed then queue else limited) s1 in
        if-Keeps InBounds (not (is_matched e w)) (pure tt)
          (if cfg.has_limiter then asked else queue) (pure-Keeps InBounds tt)
          (if-Keeps InBounds cfg.has_limiter asked queue
            (after_allow world laws apart cap w.id (λ allowed. if allowed then queue else limited)
              (λ b. if-Keeps InBounds b queue limited (dispatch_queued-Keeps w) (
                quietly-Keeps world laws apart cap
                  (create_delivery world (limited_delivery e now (draw true w) w))
                  (create_delivery-Keeps (limited_delivery e now (draw true w) w)
                    (sym (drawn w).0, omega arith, omega arith)))))
            (dispatch_queued-Keeps w))

    dispatch_each-Keeps :
        (ws : List Webhook) (last : Outcome (Unit {0}))
        → Keeps InBounds (dispatch_each world cfg e now draw last ws)
    unfolding dispatch_each
    dispatch_each-Keeps [] last s h = h
    dispatch_each-Keeps (w ∷ ws) last s h =
        dispatch_each-Keeps ws
          (elim (dispatch_one world cfg e now draw w s).0 [ ok u ↦ last | err x ↦ err x ])
          (dispatch_one world cfg e now draw w s).1 (dispatch_one-Keeps w s h)

    dispatch_event-Keeps : Keeps InBounds (dispatch_event world cfg e now draw)
    unfolding dispatch_event find_for_event_dispatch
    dispatch_event-Keeps =
        let found = world.webhooks.find (in_scope e.organization_id) in
        bind-Keeps InBounds
          (map_err wrap_internal (find_for_event_dispatch world e.organization_id))
          (dispatch_each world cfg e now draw (ok tt))
          (map_err-Keeps InBounds wrap_internal (find_for_event_dispatch world e.organization_id) (
            map_err-Keeps InBounds wrap_internal found (λ s h.
              kept_rows world laws apart cap (apart_too.find_apart (in_scope e.organization_id) s)
                h)))
          (λ ws. dispatch_each-Keeps ws (ok tt))

  delete_older_than-Keeps : (now days : ℕ) → Keeps InBounds (delete_older_than world now days)
  unfolding delete_older_than
  delete_older_than-Keeps now days =
      map_err-Keeps InBounds wrap_internal (world.deliveries.delete old)
        (λ s h. go s h (world.deliveries.delete old s).0 refl)
    where
      old : WebhookDelivery → Bool
      old d = ltb (d.created_at + days * 86_400_000_000_000) now

      go :
          (s : S)
          → InBounds s
          → (o : Outcome ℕ) → (world.deliveries.delete old s).0 ≡ o
          → InBounds (world.deliveries.delete old s).1
      go s h (ok n) e =
          subst (All (IsWithin cap)) (sym (delete_ok old s n e))
            (keep-All cap (λ r. if old r then false else true) (rows s) h)
      go s h (err x) e = kept_rows world laws apart cap (delete_err old s x e) h

  -- A call that changes deliveries, and the state after it, with whatever outcome.
  pub data Step (s : S) (f : S) : Type 0 where
    dispatched :
        (cfg : Settings) (e : Event) (now : ℕ) (draw : Bool → Webhook → ℕ)
        → IsDrawn cfg draw
        → (dispatch_event world cfg e now draw s).1 ≡ f
        → Step s f
    processed :
        (size : ℕ) (t : Times) (id : ℕ) → (process_delivery world size t id s).1 ≡ f → Step s f
    reaped : (now timeout : ℕ) → (reap world now timeout s).1 ≡ f → Step s f
    replayed : (id : ℕ) → (replay_delivery world id s).1 ≡ f → Step s f
    cleaned : (now days : ℕ) → (delete_older_than world now days s).1 ≡ f → Step s f

  pub data Reach (s : S) : S → Type 0 where
    here : Reach s s
    next : {e f : S} → Reach s e → Step e f → Reach s f

  Step-IsWithin : IsPositive → {s f : S} → Step s f → InBounds s → InBounds f
  Step-IsWithin positive {s} (dispatched cfg e now draw drawn h) i =
      subst InBounds h (dispatch_event-Keeps positive cfg e now draw drawn s i)
  Step-IsWithin positive {s} (processed size t id h) i =
      subst InBounds h (process_delivery-Keeps world laws apart cap size t id s i)
  Step-IsWithin positive {s} (reaped now timeout h) i =
      subst InBounds h (reap-Keeps world laws apart cap now timeout s i)
  Step-IsWithin positive {s} (replayed id h) i =
      subst InBounds h (replay_delivery-Keeps positive id s i)
  Step-IsWithin positive {s} (cleaned now days h) i =
      subst InBounds h (delete_older_than-Keeps now days s i)

  -- Whatever events were dispatched and deliveries processed, reaped, replayed and cleaned up, and whatever
  -- failed on the way, each delivery has its limit and an attempt between 1 and that limit, if each had
  -- at the start, the limits are 1 at least and a dispatch draws identifiers with the limits it writes.
  pub Reach-IsWithin : IsPositive → {s f : S} → InBounds s → Reach s f → InBounds f
  Reach-IsWithin positive i here = i
  Reach-IsWithin positive i (next r step) =
      Step-IsWithin positive step (Reach-IsWithin positive i r)
