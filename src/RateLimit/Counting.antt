-- ===== src/RateLimit/Counting.antt =====
-- What the counters of internal/http/middleware/auth_rate_limit.go add up to, over any cache that is a
-- map with expiry.
use base_go_api.Prelude.{
  ltb, ◌-◌, ℕ, suc, ◌≤◌, ◌≡◌, refl, ap, sym, ◌∙◌, Bool, true, false, List, [], ◌∷◌, ◌++◌, Option,
  none, some, arith, if◌then◌else◌, All,
}
use base_go_api.Prelude.Bytes.{
  bytes_eq-append, Bytes, bytes_eq, bytes_eq_refl, eq_of_bytes_eq, codes, itoa, atoi-itoa,
}
use base_go_api.Prelude.Outcome.{Outcome, ok}
use base_go_api.Cache.Driver.{Driver, Entry, Laws, live, expiry}
use base_go_api.RateLimit.Limiter.{
  Verdict, passed, too_many, verdict, next_count, ip_key, increment_counter, rate_limit_by_ip,
}

ip_key_eq : (e a b : Bytes) → bytes_eq (ip_key e a) (ip_key e b) ≡ bytes_eq a b
ip_key_eq e a b =
    bytes_eq-append (codes "auth_rate_limit:") (e ++ (codes ":ip:" ++ a)) (e ++ (codes ":ip:" ++ b))
    ∙ bytes_eq-append e (codes ":ip:" ++ a) (codes ":ip:" ++ b)
    ∙ bytes_eq-append (codes ":ip:") a b

-- An entry that holds a count and lives at least until an instant; no entry holds the count 0.
abbrev pub Holds : ℕ → ℕ → Option Entry → Type 0
Holds end n none = n ≡ 0
Holds end n (some e) = (e.value ≡ itoa n) × (end ≤ e.expires_at)

next_count_lem :
    (end n now : ℕ) (o : Option Entry)
    → Holds end n o
    → now ≤ end
    → next_count (ok (live now o)) ≡ suc n
next_count_lem end n now none h le = ground arith
next_count_lem end n now (some e) (v, x) le = ground (arith, atoi-itoa n)

Holds-if :
    (end m n : ℕ) (same : Bool) (x : ℕ) (o : Option Entry)
    → (same ≡ true → m ≡ n)
    → end ≤ x
    → Holds end m o
    → Holds end
        (if same then suc m else m)
        (if same then some (record { value = itoa (suc n); expires_at = x }) else o)
Holds-if end m n true x o e le h = (ap (λ k. itoa (suc k)) (sym (e refl)), le)
Holds-if end m n false x o e le h = h

-- A request: the address of the client, and the instants at which the cache is read and written.
pub record Request : Type 0 where
  pub ip : Bytes
  pub read : ℕ
  pub write : ℕ

-- How many of the requests came from an address.
abbrev pub from_ip : Bytes → List Request → ℕ
from_ip ip [] = 0
from_ip ip (r ∷ rs) = let n = from_ip ip rs in if bytes_eq ip r.ip then suc n else n

-- The answer to a client with n earlier requests: it passes if they are fewer than the limit.
abbrev pub answer : ℕ → ℕ → Verdict
answer limit n = if ltb n limit then passed (limit - suc n) else too_many

answer_lem : (limit n : ℕ) → verdict limit (ok (suc n)) ≡ answer limit n
answer_lem limit n = ground arith

-- The verdicts of a limiter that counts the earlier requests of each client.
abbrev pub counted : ℕ → List Request → List Request → List Verdict
counted limit past [] = []
counted limit past (r ∷ rs) = answer limit (from_ip r.ip past) ∷ counted limit (r ∷ past) rs

-- A request within the window that begins at an instant.
abbrev pub Within : ℕ → ℕ → Request → Type 0
Within start window r = (start ≤ r.write) × (r.read ≤ expiry start window)

module _ (cache : Driver) (laws : Laws cache) (endpoint : Bytes) (limit window : ℕ) where
  open cache use {State}
  open laws use {entry, get_lem, set_runs, entry-set}

  -- The requests in turn.
  abbrev pub serve : List Request → State → List Verdict
  serve [] s = []
  serve (r ∷ rs) s =
      let (v, s') = rate_limit_by_ip cache true endpoint limit window r.ip r.read r.write s in
      v ∷ serve rs s'

  increment_counter_lem :
      (k : Bytes) (read write end n : ℕ) (s : State)
      → Holds end n (entry s k)
      → read ≤ end
      → ((increment_counter cache true k window read write s).0 ≡ ok (suc n))
        × ((j : Bytes)
            → entry (increment_counter cache true k window read write s).1 j ≡ (
                if bytes_eq j k
                then some (record { value = itoa (suc n); expires_at = expiry write window })
                else entry s j))
  unfolding increment_counter
  increment_counter_lem k read write end n s h le = (
    ground (
      arith,
      get_lem k read s,
      next_count_lem end n read (entry s k) h le,
      set_runs k (itoa (suc n)) window write s,
    ),
    λ j. ground (
      arith,
      get_lem k read s,
      next_count_lem end n read (entry s k) h le,
      set_runs k (itoa (suc n)) window write s,
      entry-set k (itoa (suc n)) window write s j,
    ),
  )

  rate_limit_step :
      (ip : Bytes) (read write : ℕ) (s : State) {n : ℕ}
      → (increment_counter cache true (ip_key endpoint ip) window read write s).0 ≡ ok n
      → rate_limit_by_ip cache true endpoint limit window ip read write s ≡ (
        verdict limit (ok n),
        (increment_counter cache true (ip_key endpoint ip) window read write s).1,
      )
  unfolding rate_limit_by_ip
  rate_limit_step ip read write s h = ground arith

  module _ (start : ℕ) where
    -- The cache holds the count of each client.
    abbrev Agrees : List Request → State → Type 0
    Agrees past s =
        (ip : Bytes) → Holds (expiry start window) (from_ip ip past) (entry s (ip_key endpoint ip))

    Agrees-step :
        (past : List Request) (r : Request) (s : State)
        → Agrees past s
        → Within start window r
        → Agrees
            (r ∷ past)
            (increment_counter cache true (ip_key endpoint r.ip) window r.read r.write s).1
    Agrees-step past r s h (from, to) ip =
        let n = from_ip r.ip past in
        let (runs, after) =
          increment_counter_lem (ip_key endpoint r.ip) r.read r.write (expiry start window) n s
            (h r.ip) to in
        rw (after (ip_key endpoint ip), ip_key_eq endpoint ip r.ip)
          (Holds-if (expiry start window) (from_ip ip past) n (bytes_eq ip r.ip)
            (expiry r.write window) (entry s (ip_key endpoint ip))
            (λ e. ap (λ i. from_ip i past) (eq_of_bytes_eq ip r.ip e)) (omega arith) (h ip))

    serve_counts :
        (past rs : List Request) (s : State)
        → Agrees past s
        → All (Within start window) rs
        → serve rs s ≡ counted limit past rs
    serve_counts past [] s h w = refl
    serve_counts past (r ∷ rs) s h (w, ws) =
        let (runs, after) =
          increment_counter_lem (ip_key endpoint r.ip) r.read r.write (expiry start window)
            (from_ip r.ip past) s (h r.ip) w.1 in
        let rest =
          serve_counts (r ∷ past) rs
            (increment_counter cache true (ip_key endpoint r.ip) window r.read r.write s).1
            (Agrees-step past r s h w) ws in
        rw (rate_limit_step r.ip r.read r.write s runs, answer_lem limit (from_ip r.ip past), rest)
          refl

  -- Over any cache that is a map with expiry and holds no counter of the endpoint: where requests,
  -- in any order and from any clients, are all read before the end of a window and written after its
  -- start, the limiter passes those of each client up to the limit, with the number that is left to
  -- the client, and answers the rest with 429.
  pub serve_from_empty :
      (start : ℕ) (rs : List Request) (s : State)
      → ((ip : Bytes) → entry s (ip_key endpoint ip) ≡ none)
      → All (Within start window) rs
      → serve rs s ≡ counted limit [] rs
  serve_from_empty start rs s empty w = serve_counts start [] rs s (λ ip. rw (empty ip) refl) w

  -- The count of a client whose requests follow one another within the window.
  abbrev pub Spaced : ℕ → List Request → Type 0
  Spaced last [] = Unit
  Spaced last (r ∷ rs) = (r.read ≤ expiry last window) × Spaced r.write rs

  -- The verdicts on a client that has made some requests already.
  abbrev pub escalating : ℕ → List Request → List Verdict
  escalating n [] = []
  escalating n (r ∷ rs) = answer limit n ∷ escalating (suc n) rs

  -- Over any cache that is a map with expiry: a client with a live count n, whose each request is read
  -- within the window after the write of the one before, gets the verdicts for n + 1, n + 2 and so
  -- on, refused requests included, however long that lasts.
  pub window_slides :
      (ip : Bytes) (last n : ℕ) (rs : List Request) (s : State)
      → Holds (expiry last window) n (entry s (ip_key endpoint ip))
      → All (λ r. r.ip ≡ ip) rs
      → Spaced last rs
      → serve rs s ≡ escalating n rs
  window_slides ip last n [] s h same sp = refl
  window_slides ip last n (r ∷ rs) s h (e, same) (sp, sps) =
      let k = ip_key endpoint ip in
      let (runs, after) = increment_counter_lem k r.read r.write (expiry last window) n s h sp in
      let s' = (increment_counter cache true k window r.read r.write s).1 in
      let kept : Holds (expiry r.write window) (suc n) (entry s' k) =
        rw (after k, bytes_eq_refl k) (refl, omega arith) in
      let rest = window_slides ip r.write (suc n) rs s' kept same sps in
      let step = rate_limit_step ip r.read r.write s runs in
      rw (e, step, answer_lem limit n, rest) refl

  -- Over any cache that is a map with expiry: of two requests of a client with a live count n that both
  -- read the counter before either writes it, the second write leaves the count n + 1, where two
  -- requests one after the other are both counted.
  pub interleaved_lost :
      (k : Bytes) (n end read1 read2 write1 write2 : ℕ) (s : State)
      → Holds end n (entry s k)
      → read1 ≤ end
      → read2 ≤ end
      → read2 ≤ expiry write1 window
      → let (v1, s1) = cache.get k read1 s in
        let (v2, s2) = cache.get k read2 s1 in
        let s3 = (cache.set k (itoa (next_count v1)) window write1 s2).1 in
        let s4 = (cache.set k (itoa (next_count v2)) window write2 s3).1 in
        let t1 = (increment_counter cache true k window read1 write1 s).1 in
        let t2 = (increment_counter cache true k window read2 write2 t1).1 in
        Holds (expiry write2 window) (suc n) (entry s4 k)
        × Holds (expiry write2 window) (suc (suc n)) (entry t2 k)
  interleaved_lost k n end read1 read2 write1 write2 s h le1 le2 le3 =
      let s1 = (increment_counter cache true k window read1 write1 s).1 in
      let (runs, after) = increment_counter_lem k read1 write1 end n s h le1 in
      let kept : Holds (expiry write1 window) (suc n) (entry s1 k) =
        rw (after k, bytes_eq_refl k) (refl, omega arith) in
      let (runs2, after2) =
        increment_counter_lem k read2 write2 (expiry write1 window) (suc n) s1 kept le3 in
      let v : Outcome (Option Bytes) = ok (live read2 (entry s k)) in
      let s3 = (cache.set k (itoa (next_count (ok (live read1 (entry s k))))) window write1 s).1 in
      let once = entry-set k (itoa (next_count v)) window write2 s3 k in
      (
        rw (get_lem k read1 s, get_lem k read2 s, once, bytes_eq_refl k)
            (ap itoa (next_count_lem end n read2 (entry s k) h le2), omega arith),
        rw (after2 k, bytes_eq_refl k) (refl, omega arith),
      )
