-- ===== src/Webhooks/SlidingWindow.antt =====
-- The limiter of internal/service/webhook_rate_limiter.go against a log of all the requests that were let
-- pass.
use base_go_api.Prelude.{
  ℕ, ◌+◌, ◌-◌, ◌≤◌, ◌≡◌, refl, ap, sym, ◌∙◌, Bool, true, false, Option, none, some, List, [], ◌∷◌,
  arith, ltb, leb, length, keep, any, Bool-cases, inl, inr, if◌then◌else◌,
}
use base_go_api.Prelude.Bytes.{bytes_eq}
use base_go_api.Prelude.Outcome.{Outcome, ok, err}
use base_go_api.Webhooks.RateLimiter.{
  Entry, SortedSet, Reliable, Verdict, window_ms, unix_ms, window_start, is_after, entry_id,
  new_entry, refuse, admit, decide, allow,
}

-- A request for one webhook: the instants and the number of its call, and whether the key has lapsed
-- since the last one.
pub record Request : Type 0 where
  pub now : ℕ
  pub later : ℕ
  pub drawn : ℕ
  pub lapsed : Bool

abbrev pub is_allowed : Outcome Verdict → Bool
is_allowed (ok v) = v.allowed
is_allowed (err e) = false

-- Whether an entry lies in the window that ends at an instant, in milliseconds.
abbrev pub in_window : ℕ → Entry → Bool
in_window at e = ltb at (e.score + window_ms)

-- The specification: fewer requests than the limit were let pass in the window that ends now.
abbrev pub has_room : ℕ → ℕ → List Entry → Bool
has_room limit at log = ltb (length (keep (in_window at) log)) limit

abbrev pub logged : ℕ → Request → List Entry → List Entry
logged limit r log =
    if has_room limit (unix_ms r.now) log then new_entry r.now r.drawn ∷ log else log

abbrev pub sliding_log : ℕ → List Entry → List Request → List Bool
sliding_log limit log [] = []
sliding_log limit log (r ∷ rs) =
    has_room limit (unix_ms r.now) log ∷ sliding_log limit (logged limit r log) rs

-- The clock does not go back, the numbers drawn give new members, and a key lapses only when all its
-- entries have left the window, as each is written with that time to live.
abbrev pub IsOrderly : ℕ → ℕ → List Entry → List Request → Type 0
IsOrderly limit before log [] = Unit
IsOrderly limit before log (r ∷ rs) =
    (before ≤ unix_ms r.now)
    × (any (λ e. bytes_eq e.member (entry_id r.now r.drawn)) log ≡ false)
    × (r.lapsed ≡ true → keep (in_window (unix_ms r.now)) log ≡ [])
    × IsOrderly limit (unix_ms r.now) (logged limit r log) rs

is_after_start :
    (at : ℕ) (e : Entry)
    → is_after (if ltb at window_ms then none else some (at - window_ms)) e ≡ in_window at e
is_after_start at e = ground arith

keep_same : (p q : Entry → Bool) (l : List Entry) → ((e : Entry) → p e ≡ q e) → keep p l ≡ keep q l
keep_same p q [] h = refl
keep_same p q (e ∷ l) h = ground (arith, h e, keep_same p q l h)

keep_later :
    (m at : ℕ) (l : List Entry)
    → m ≤ at
    → keep (in_window at) (keep (in_window m) l) ≡ keep (in_window at) l
keep_later m at [] h = refl
keep_later m at (e ∷ l) h = ground (arith, keep_later m at l h)

any-keep : (p q : Entry → Bool) (l : List Entry) → any p l ≡ false → any p (keep q l) ≡ false
any-keep p q [] h = refl
any-keep p q (e ∷ l) h = ground (arith, any-keep p q l)

module _ {S : Type 0} (set : SortedSet S) (sound : Reliable set) where
  open sound use {
    entries, rem_entries, card_runs, card_entries, first_entries, add_entries, expire_entries,
    lapse_entries,
  }

  -- The state that a request meets.
  abbrev pub met : Request → S → S
  met r s = if r.lapsed then set.lapse s else s

  abbrev pub serve : ℕ → Request → S → Outcome Verdict × S
  serve limit r s = allow set limit r.now r.later r.drawn (met r s)

  abbrev pub serve_all : ℕ → List Request → S → List Bool
  serve_all limit [] s = []
  serve_all limit (r ∷ rs) s =
      is_allowed (serve limit r s).0 ∷ serve_all limit rs (serve limit r s).1

  swept :
      (m at : ℕ) (log : List Entry) (s : S) (bound : Option ℕ)
      → bound ≡ (if ltb at window_ms then none else some (at - window_ms))
      → m ≤ at
      → entries s ≡ keep (in_window m) log
      → entries (set.rem_up_to bound s).1 ≡ keep (in_window at) log
  swept m at log s bound start le held =
      rem_entries bound s
      ∙ ap (keep (is_after bound)) held
      ∙ keep_same (is_after bound) (in_window at) (keep (in_window m) log)
          (λ e. ap (λ b. is_after b e) start ∙ is_after_start at e)
      ∙ keep_later m at log le

  refused :
      (later : ℕ) (s : S)
      → (is_allowed (refuse set later s).0 ≡ false) × (entries (refuse set later s).1 ≡ entries s)
  unfolding refuse
  refused later s = (refl, first_entries s)

  admitted :
      (limit now drawn count : ℕ) (s : S)
      → any (λ f. bytes_eq f.member (entry_id now drawn)) (entries s) ≡ false
      → (is_allowed (admit set limit now drawn count s).0 ≡ true)
        × (entries (admit set limit now drawn count s).1 ≡ new_entry now drawn ∷ entries s)
  unfolding admit
  admitted limit now drawn count s fresh =
      (refl, expire_entries _ _ ∙ add_entries (new_entry now drawn) s fresh)

  -- The end of a request, when the entries are those in the window.
  decided :
      (limit : ℕ) (r : Request) (log : List Entry) (s : S) (count : ℕ)
      → count ≡ length (entries s)
      → entries s ≡ keep (in_window (unix_ms r.now)) log
      → any (λ e. bytes_eq e.member (entry_id r.now r.drawn)) log ≡ false
      → let a = decide set limit r.now r.later r.drawn (ok count) s in
        (is_allowed a.0 ≡ has_room limit (unix_ms r.now) log)
        × (entries a.1 ≡ keep (in_window (unix_ms r.now)) (logged limit r log))
  unfolding decide
  decided limit r log s count counted held fresh =
      let at = unix_ms r.now in
      let inside = keep (in_window at) log in
      let size : count ≡ length inside = counted ∙ ap length held in
      let yes_or_no = admitted limit r.now r.drawn count s (
        ap (any (λ e. bytes_eq e.member (entry_id r.now r.drawn))) held
        ∙ any-keep (λ e. bytes_eq e.member (entry_id r.now r.drawn)) (in_window at) log fresh) in
      let stays = refused r.later s in
      elim (Bool-cases (has_room limit at log)) [
        | inl room ↦
            let under : leb limit count ≡ false = ground (arith, size) in
            let kept : in_window at (new_entry r.now r.drawn) ≡ true = ground arith in
            rw (under, room, kept)
              (yes_or_no.0, yes_or_no.1 ∙ ap (λ l. new_entry r.now r.drawn ∷ l) held)
        | inr full ↦
            let over : leb limit count ≡ true = ground (arith, size) in
            rw (over, full) (stays.0, stays.1 ∙ held)
      ]

  met_swept :
      (m : ℕ) (r : Request) (log : List Entry) (s : S)
      → m ≤ unix_ms r.now
      → (r.lapsed ≡ true → keep (in_window (unix_ms r.now)) log ≡ [])
      → entries s ≡ keep (in_window m) log
      → entries (set.rem_up_to (window_start r.now) (met r s)).1
        ≡ keep (in_window (unix_ms r.now)) log
  met_swept m r log s le gone held = elim (Bool-cases r.lapsed) [
    | inl lapsed ↦ rw lapsed (
        rem_entries (window_start r.now) (set.lapse s)
        ∙ ap (keep (is_after (window_start r.now))) (lapse_entries s)
        ∙ sym (gone lapsed))
    | inr there ↦ rw there (swept m (unix_ms r.now) log s (window_start r.now) refl le held)
  ]

  served :
      (limit m : ℕ) (r : Request) (log : List Entry) (s : S)
      → m ≤ unix_ms r.now
      → any (λ e. bytes_eq e.member (entry_id r.now r.drawn)) log ≡ false
      → (r.lapsed ≡ true → keep (in_window (unix_ms r.now)) log ≡ [])
      → entries s ≡ keep (in_window m) log
      → (is_allowed (serve limit r s).0 ≡ has_room limit (unix_ms r.now) log)
        × (entries (serve limit r s).1 ≡ keep (in_window (unix_ms r.now)) (logged limit r log))
  unfolding allow
  served limit m r log s le fresh gone held =
      let s1 = (set.rem_up_to (window_start r.now) (met r s)).1 in
      rw (card_runs s1) (
        decided limit r log (set.card s1).1 (length (entries s1))
          (ap length (sym (card_entries s1))) (card_entries s1 ∙ met_swept m r log s le gone held)
          fresh)

  served_all :
      (limit m : ℕ) (log : List Entry) (rs : List Request) (s : S)
      → IsOrderly limit m log rs
      → entries s ≡ keep (in_window m) log
      → serve_all limit rs s ≡ sliding_log limit log rs
  served_all limit m log [] s orderly held = refl
  served_all limit m log (r ∷ rs) s (le, fresh, gone, rest) held =
      let (first, after) = served limit m r log s le fresh gone held in
      rw first (
        ap (λ l. has_room limit (unix_ms r.now) log ∷ l)
          (served_all limit (unix_ms r.now) (logged limit r log) rs (serve limit r s).1 rest after))

  -- On a server that reports no error and starts with no entry, where the clock does not go back, the
  -- members drawn are new and a key lapses only when its entries are out of the window: each request
  -- is let pass exactly when fewer requests than the limit were let pass in the window before it.
  pub serve_all-sliding_log :
      (limit : ℕ) (rs : List Request) (s : S)
      → entries s ≡ []
      → IsOrderly limit 0 [] rs
      → serve_all limit rs s ≡ sliding_log limit [] rs
  serve_all-sliding_log limit rs s empty orderly = served_all limit 0 [] rs s orderly empty
