-- ===== src/Webhooks/Exhaustion.antt =====
-- A delivery that no receiver accepts: repeated runs of the worker of
-- internal/service/webhook_worker.go.
use base_go_api.Prelude.{
  ℕ, suc, ◌+◌, ◌≤◌, ◌==◌, ◌≡◌, refl, ap, sym, ◌∙◌, subst, Bool, true, false, not, List, [], ◌∷◌,
  Option, none, some, arith, inl, inr, length, take, ltb, if◌then◌else◌, ==_refl, Bool-cases,
}
use base_go_api.Prelude.Bytes.{Bytes}
use base_go_api.Prelude.Outcome.{Outcome, ok, err, map_err}
use base_go_api.Sql.Table.{Laws, IsReliable, In, count, updated, none_passes}
use base_go_api.Sql.Results.{missing_or_internal}
use base_go_api.Webhooks.Delivery.{
  Webhook, WebhookDelivery, status_eq, delivered, is_terminal, is_active,
}
use base_go_api.Webhooks.Repository.{World, find_delivery, find_webhook, update_status}
use base_go_api.Webhooks.Worker.{Times, start, process_delivery}
use base_go_api.Webhooks.Bounded.{IsApart}
use base_go_api.Webhooks.Verdict.{rejected, heard, judge, outcome}
use base_go_api.Webhooks.Named.{has_name}
use base_go_api.Webhooks.Runs.{process_delivery_lem}

-- The receiver rejects whatever it is sent, or cannot be reached, and the limiter lets everything pass.
pub record IsRejected {S : Type 0} (world : World S) : Type 0 where
  pub allows : (id : ℕ) (s : S) → (world.allow id s).0 ≡ true
  pub rejects :
      (w : Webhook) (d : WebhookDelivery) (b : Bytes) (s : S)
      → (a : Option (ℕ × Bytes)) × (heard (world.post w d b s).0 ≡ rejected a)

judge_rejects :
    {S : Type 0} (world : World S) (size : ℕ) (d : WebhookDelivery) (o : Outcome Webhook) (s : S)
    → IsRejected world
    → (a : Option (ℕ × Bytes)) × (judge world size d o s ≡ rejected a)
judge_rejects world size d (err e) s stern = (none, refl)
judge_rejects world size d (ok w) s stern = elim (Bool-cases (not (is_active w))) [
  | inl sleeps ↦ (none, rw sleeps refl)
  | inr active ↦
      let (a, heard_so) = stern.rejects w d (take size d.payload) (world.allow w.id s).1 in
      (a, rw (active, stern.allows w.id s) heard_so)
]

-- A row of the name of `d` is `d`, where all such rows are.
only_row :
    (d r : WebhookDelivery) (R : List WebhookDelivery)
    → In r (updated (has_name d.id) (λ x. d) R)
    → has_name d.id r ≡ true
    → r ≡ d
only_row d r [] there named = elim there [ ]
only_row d r (x ∷ R) (inl same) named = elim (Bool-cases (has_name d.id x)) [
  | inl hit ↦ same ∙ rw hit refl
  | inr miss ↦
      let kept : r ≡ x = same ∙ rw miss refl in let name = ap (has_name d.id) kept in ground arith
]
only_row d r (x ∷ R) (inr there) named = only_row d r R there named

some_row :
    (p : WebhookDelivery → Bool) (R : List WebhookDelivery) → none_passes p R ≡ true → count p R ≡ 0
some_row p [] h = refl
some_row p (x ∷ R) h = ground (arith, some_row p R)

count_only :
    (d : WebhookDelivery) (R : List WebhookDelivery)
    → count (has_name d.id) (updated (has_name d.id) (λ x. d) R) ≡ count (has_name d.id) R
count_only d [] = refl
count_only d (x ∷ R) = let name = ==_refl d.id in ground (arith, count_only d R)

updated_only :
    (d : WebhookDelivery) (h : WebhookDelivery → WebhookDelivery) (R : List WebhookDelivery)
    → updated (has_name d.id) h (updated (has_name d.id) (λ x. d) R)
      ≡ updated (has_name d.id) (λ x. h d) R
updated_only d h [] = refl
updated_only d h (x ∷ R) = let name = ==_refl d.id in ground (arith, updated_only d h R)

-- What a rejection does to the attempts.
rejected_once :
    (t : Times) (d : WebhookDelivery) (a : Option (ℕ × Bytes))
    → status_eq d.status delivered ≡ false
    → let e = outcome t d (rejected a) d in
      (e.id ≡ d.id)
      × (e.max_attempts ≡ d.max_attempts)
      × (status_eq e.status delivered ≡ false)
      × (e.attempt_number ≡ (
          if ltb d.attempt_number d.max_attempts then d.attempt_number + 1 else d.attempt_number))
      × (ltb d.attempt_number d.max_attempts ≡ false → is_terminal e ≡ true)
rejected_once t d none h =
    (ground arith, ground arith, ground arith, ground arith, λ last. ground arith)
rejected_once t d (some (code, body)) h =
    (ground arith, ground arith, ground arith, ground arith, λ last. ground arith)

-- The runs of the worker on one delivery, at their times.
unfoldable pub run_all : {S : Type 0} → World S → ℕ → ℕ → List Times → S → S
run_all world size id [] s = s
run_all world size id (t ∷ ts) s = run_all world size id ts (process_delivery world size t id s).1

-- Each row of the name of `d` is `d`, and there is one.
abbrev pub IsOnly :
    {S : Type 0} (world : World S) → Laws world.deliveries → WebhookDelivery → S → Type 0
IsOnly world laws d s =
    (R : List WebhookDelivery) × (laws.rows s ≡ updated (has_name d.id) (λ x. d) R)
    × ((count (has_name d.id) R == 0) ≡ false)

module _ {S : Type 0} (world : World S) (laws : Laws world.deliveries)
    (reliable : IsReliable world.deliveries laws) (apart : IsApart world laws)
    (stern : IsRejected world) where
  open laws use {rows, first_ok, first_none}

  finds_only :
      (d : WebhookDelivery) (s : S) → IsOnly world laws d s → (find_delivery world d.id s).0 ≡ ok d
  unfolding find_delivery
  finds_only d s (R, same, there) = go (world.deliveries.first (has_name d.id) s).0 refl
    where
      go :
          (o : Outcome WebhookDelivery)
          → (world.deliveries.first (has_name d.id) s).0 ≡ o
          → (map_err missing_or_internal (world.deliveries.first (has_name d.id)) s).0 ≡ ok d
      go (ok r) e =
          let (named, among) = first_ok (has_name d.id) s r e in
          let it = only_row d r R (subst (In r) same among) named in
          let found = e ∙ ap ok it in ground arith
      go (err x) e =
          let missing = ap err (reliable.first_runs (has_name d.id) s x e) in
          let none_there =
            some_row (has_name d.id) (rows s) (first_none (has_name d.id) s (e ∙ missing)) in
          let named = count_only d R in let all = ap (count (has_name d.id)) same in ground arith

  -- The next run.
  abbrev rejected_from : Times → WebhookDelivery → Option (ℕ × Bytes) → WebhookDelivery
  rejected_from t d a = outcome t d (rejected a) d

  next_run :
      (size : ℕ) (t : Times) (d : WebhookDelivery) (s : S)
      → IsOnly world laws d s
      → status_eq d.status delivered ≡ false
      → (a : Option (ℕ × Bytes)) × IsOnly world laws
          (rejected_from t d a)
          (process_delivery world size t d.id s).1
  next_run size t d s only open_still =
      let (R, same, there) = only in
      let s1 = (update_status world d.id (start t.started) (find_delivery world d.id s).1).1 in
      let (found, s2) = find_webhook world d.webhook_id s1 in
      let (a, judged) = judge_rejects world size d found s2 stern in
      let name = (rejected_once t d a open_still).0 in
      let ran =
        (process_delivery_lem world laws reliable apart size t d.id s d (finds_only d s only)).0 in
      let after : rows (process_delivery world size t d.id s).1
          ≡ updated (has_name d.id) (λ x. rejected_from t d a) R =
        ran
        ∙ ap (λ v. updated (has_name d.id) (outcome t d v) (rows s)) judged
        ∙ ap (updated (has_name d.id) (outcome t d (rejected a))) same
        ∙ updated_only d (outcome t d (rejected a)) R in
      (
        a,
        (
          R,
          after ∙ ap (λ n. updated (has_name n) (λ x. rejected_from t d a) R) (sym name),
          ap (λ n. count (has_name n) R == 0) name ∙ there,
        ),
      )

  -- Where the receiver accepts nothing and the limiter lets everything pass, a delivery that is not
  -- delivered, alone under its name on a reliable table and with attempts left, has ended after as many
  -- runs of the worker as it has attempts from the present one: it is in a terminal state, with as many
  -- attempts as its limit.
  pub gives_up :
      (size : ℕ) (ts : List Times) (d : WebhookDelivery) (s : S)
      → IsOnly world laws d s
      → status_eq d.status delivered ≡ false
      → d.attempt_number ≤ d.max_attempts
      → length ts + d.attempt_number ≡ suc d.max_attempts
      → (e : WebhookDelivery) × (e.id ≡ d.id)
        × IsOnly world laws e (run_all world size d.id ts s)
        × (is_terminal e ≡ true)
        × (e.attempt_number ≡ d.max_attempts)
  unfolding run_all
  gives_up size [] d s only open_still le all = let never : ⊥ = omega arith in elim never [ ]
  gives_up size (t ∷ []) d s only open_still le all =
      let (a, only') = next_run size t d s only open_still in
      let (name, limit, open_then, tried, last) = rejected_once t d a open_still in
      let full : ltb d.attempt_number d.max_attempts ≡ false = ground arith in
      let same : d.attempt_number ≡ d.max_attempts = omega arith in
      (rejected_from t d a, name, only', last full, tried ∙ rw full same)
  gives_up size (t ∷ (u ∷ ts)) d s only open_still le all =
      let (a, only') = next_run size t d s only open_still in
      let (name, limit, open_then, tried, last) = rejected_once t d a open_still in
      let e = rejected_from t d a in
      let s1 = (process_delivery world size t d.id s).1 in
      let more : ltb d.attempt_number d.max_attempts ≡ true = ground arith in
      let next : e.attempt_number ≡ d.attempt_number + 1 = tried ∙ rw more refl in
      let (f, named, only_f, ended, attempts) =
        gives_up size (u ∷ ts) e s1 only' open_then (omega arith) (omega arith) in
      (
        f,
        named ∙ name,
        subst (λ n. IsOnly world laws f (run_all world size n (u ∷ ts) s1)) name only_f,
        ended,
        attempts ∙ limit,
      )
