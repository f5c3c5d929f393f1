-- ===== src/Webhooks/LimiterTests.antt =====
-- The limiter on a sorted set kept as a list.
use base_go_api.Prelude.{
  ℕ, ◌*◌, ◌≡◌, refl, Bool, true, false, List, [], ◌∷◌, none, length, keep, arith,
}
use base_go_api.Prelude.Bytes.{itoa}
use base_go_api.Prelude.Outcome.{ok}
use base_go_api.Webhooks.RateLimiter.{
  Entry, SortedSet, Reliable, is_after, allow, decide, refuse, admit,
}
use base_go_api.Webhooks.SlidingWindow.{
  Request, IsOrderly, serve_all, sliding_log, serve_all-sliding_log,
}

-- The set, newest first; the entries are added in the order of their scores.
abbrev list_set : SortedSet (List Entry)
list_set = record {
  rem_up_to = λ bound l. (ok tt, keep (is_after bound) l);
  card = λ l. (ok (length l), l);
  first = λ l. (ok none, l);
  add = λ e l. (ok tt, e ∷ l);
  expire = λ ttl l. (ok tt, l);
  lapse = λ l. [];
}

abbrev list_set-Reliable : Reliable list_set
list_set-Reliable = record {
  entries = λ l. l;
  rem_runs = λ bound l. refl;
  rem_entries = λ bound l. refl;
  card_runs = λ l. refl;
  card_entries = λ l. refl;
  first_entries = λ l. refl;
  add_entries = λ e l fresh. refl;
  expire_entries = λ ttl l. refl;
  lapse_entries = λ l. refl;
}

abbrev at_second : ℕ → ℕ → Bool → Request
at_second n drawn lapsed = record {
  now = n * 1_000_000_000;
  later = n * 1_000_000_000;
  drawn = drawn;
  lapsed = lapsed;
}

-- Two pass, the third is refused; at second 161 the first has left the window, and at 300 the key has
-- lapsed.
abbrev requests : List Request
requests =
    at_second 100 7 false
    ∷ at_second 110 3 false
    ∷ at_second 159 4 false
    ∷ at_second 161 7 false
    ∷ at_second 300 1 true
    ∷ []

served_run :
    serve_all list_set list_set-Reliable 2 requests [] ≡ true ∷ true ∷ false ∷ true ∷ true ∷ []
unfolding allow decide refuse admit itoa
served_run = refl

requests-IsOrderly : IsOrderly 2 0 [] requests
unfolding itoa
requests-IsOrderly = (
  omega arith,
  refl,
  λ h. cc,
  (
    omega arith,
    refl,
    λ h. cc,
    (omega arith, refl, λ h. cc, (omega arith, refl, λ h. cc, (omega arith, refl, λ h. refl, tt))),
  ),
)

serve_all-sliding_log_example :
    serve_all list_set list_set-Reliable 2 requests [] ≡ sliding_log 2 [] requests
serve_all-sliding_log_example =
    serve_all-sliding_log list_set list_set-Reliable 2 requests [] refl requests-IsOrderly
