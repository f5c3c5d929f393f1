-- ===== src/Idempotency/Tests.antt =====
-- Requests with an idempotency key, over the cache in memory and a table that is a list.
use base_go_api.Prelude.{ℕ, suc, ◌≡◌, refl, true, false, List, [], ◌∷◌, none, some, arith, ◌↔◌, ◌≤◌}
use base_go_api.Prelude.Bytes.{Bytes, codes}
use base_go_api.Prelude.Outcome.{err}
use base_go_api.Errors.{foreign}
use base_go_api.Sql.Table.{Table}
use base_go_api.Sql.Memory.{list_table, list-Laws, list-IsReliable}
use base_go_api.Cache.Driver.{Driver}
use base_go_api.Cache.Memory.{Store, find_entry, memory_driver}
use base_go_api.Cache.Laws.{memory-Laws}
use base_go_api.Idempotency.Recorder.{header, chunk, fresh, write, write_all, status_of}
use base_go_api.Idempotency.Record.{IdempotencyRecord}
use base_go_api.Idempotency.Request.{
  default_config, Request, Run, Times, World, Pending, served, replayed, refused, pending_of, skips,
  valid_key, request_key,
}
use base_go_api.Idempotency.Middleware.{middleware, replay_from_db, acquire}
use base_go_api.Idempotency.Store.{Draws, response_of, store_result, store_in_db}
use base_go_api.Idempotency.Codec.{plain_library, plain-Roundtrips}
use base_go_api.Idempotency.Once.{play, first_then_replays, one_at_a_time, guard_lapses}
use base_go_api.Idempotency.Keys.{request_key-injective}
use base_go_api.Idempotency.FailOpen.{IsDown, fails_open}
use base_go_api.Idempotency.Capture.{captured}
use base_go_api.Idempotency.Stored.{replay_from_db-store_in_db}

abbrev records : Table (List IdempotencyRecord) IdempotencyRecord
records = list_table (λ d. d) (λ l d. l)

-- A handler that counts its runs, and answers with the count.
abbrev counting : Request → ℕ → Run × ℕ
counting r n =
    (record { writes = header 201 [] ∷ (chunk (suc n ∷ []) [] ∷ []); failed = false }, suc n)

abbrev pay : Bytes → Request
pay body = record {
  raw_key = codes "k1";
  method = codes "POST";
  path = codes "/a:b";
  user = some (codes "u");
  organization = none;
  body = body;
  websocket = false;
}

abbrev at : ℕ → Times
at n = record { lock_read = n; record_read = n; acquired = n }

abbrev start : World Store (List IdempotencyRecord) ℕ
start = record { cache = []; db = []; app = 0 }

abbrev pay_key : Bytes
pay_key = codes "idem:default:u:POST:/a:b:k1"

abbrev drawn : Draws
drawn = record { lock_set = 3; record_set = 4; created = 5; row = 7 }

-- Two retries; the second has another body.
first_then_replays_example :
    let lib = plain_library in
    let (run, a) = counting (pay []) 0 in
    let p = pending_of lib (codes "u") (pay []) run in
    let (answer, w1) =
      middleware lib default_config memory_driver records counting true (at 1) (pay []) start in
    let w2 = store_result lib default_config memory_driver records drawn p w1 in
    (answer ≡ (served run, some p))
    × (w2.app ≡ 1)
    × (play lib default_config memory_driver memory-Laws records counting
          ((at 10, pay []) ∷ ((at 300_000_000_003, pay (codes "x")) ∷ []))
          w2
        ≡ ((replayed (response_of p), none) ∷ ((replayed (response_of p), none) ∷ []), w2))
unfolding skips valid_key request_key find_entry pending_of write_all write
first_then_replays_example =
    first_then_replays plain_library default_config memory_driver memory-Laws records counting
      plain-Roundtrips (codes "u") pay_key (at 1) (pay []) drawn start
      ((at 10, pay []) ∷ ((at 300_000_000_003, pay (codes "x")) ∷ [])) (refl, refl, refl, refl) refl
      refl refl
      (
        ((refl, refl, refl, refl), omega arith, omega arith),
        (((refl, refl, refl, refl), omega arith, omega arith), tt),
      )

one_at_a_time_example :
    let lib = plain_library in
    let w1 =
      (middleware lib default_config memory_driver records counting true (at 1) (pay []) start).1 in
    let late =
      acquire lib default_config memory_driver records counting (at 2) (codes "u") (pay []) w1 in
    (middleware lib default_config memory_driver records counting true (at 2) (pay []) w1
      ≡ ((refused 409 "IDEMPOTENCY_PROCESSING", none), w1))
    × (late.0 ≡ (refused 409 "IDEMPOTENCY_CONFLICT", none))
    × (late.1.app ≡ w1.app)
unfolding skips valid_key request_key find_entry
one_at_a_time_example =
    one_at_a_time plain_library default_config memory_driver memory-Laws records counting
      plain-Roundtrips (codes "u") pay_key (at 1) (at 2) (pay []) (pay []) start
      (refl, refl, refl, refl) (refl, refl, refl, refl) refl refl (omega arith) (omega arith)

abbrev first_answer : Pending
first_answer = record {
  user = codes "u";
  request = pay [];
  hash = [];
  status_code = 201;
  body = 1 ∷ [];
  headers = [];
}

-- The lock was set at 3 for 300 seconds.
guard_lapses_example :
    let w' =
      store_result plain_library default_config memory_driver records drawn first_answer start in
    let (run, a) = counting (pay []) 0 in
    let (answer, w1) =
      middleware plain_library default_config memory_driver records counting true
        (at 300_000_000_004)
        (pay [])
        w' in
    (answer ≡ (served run, some (pending_of plain_library (codes "u") (pay []) run))) × (w1.app ≡ 1)
unfolding skips valid_key request_key store_result
guard_lapses_example =
    guard_lapses plain_library default_config memory_driver memory-Laws records counting (codes "u")
      pay_key (at 300_000_000_004) (pay []) drawn first_answer start (refl, refl, refl, refl) refl
      (omega arith) (omega arith)

request_key-injective_example :
    let r = pay [] in
    (codes "default" ≡ codes "default")
    × (codes "u" ≡ codes "u")
    × (codes "POST" ≡ codes "POST")
    × (codes "/a:b" ≡ codes "/a:b")
    × (codes "k1" ≡ codes "k1")
unfolding request_key
request_key-injective_example =
    request_key-injective plain_library (codes "u") (codes "u") (pay []) (pay (codes "x"))
      (refl, refl, refl, refl) (refl, refl, refl, refl) refl

captured_example :
    let ws = header 201 [] ∷ (chunk (codes "ab") [] ∷ (chunk (codes "c") [] ∷ [])) in
    (status_of (write_all ws fresh) ≡ 201)
    × ((write_all ws fresh).headers ≡ [])
    × (((write_all ws fresh).body ≡ codes "abc") ↔ (3 ≤ 5120))
captured_example = captured (header 201 [] ∷ (chunk (codes "ab") [] ∷ (chunk (codes "c") [] ∷ [])))

-- A cache that cannot be reached.
abbrev down_driver : Driver
down_driver = record {
  State = Unit {0};
  get = λ k now c. (err (foreign "down"), c);
  set = λ k v ttl now c. (err (foreign "down"), c);
  set_nx = λ k v ttl now c. (err (foreign "down"), c);
  delete = λ k c. (err (foreign "down"), c);
  exists = λ k now c. (err (foreign "down"), c);
  clear = λ p c. (err (foreign "down"), c);
}

abbrev down-IsDown : IsDown down_driver
down-IsDown = record {
  get_fails = λ k now c. (foreign "down", refl);
  set_nx_fails = λ k v ttl now c. (foreign "down", refl);
}

fails_open_example :
    let w : World (Unit {0}) (List IdempotencyRecord) ℕ = record { cache = tt; db = []; app = 4 } in
    let (out, w1) =
      middleware plain_library default_config down_driver records counting true (at 1) (pay []) w in
    (out.0 ≡ served (counting (pay []) 4).0) × (w1.app ≡ 5)
unfolding skips valid_key
fails_open_example =
    fails_open plain_library default_config down_driver records counting true (at 1) (pay [])
      (record { cache = tt; db = []; app = 4 }) down-IsDown

replay_from_db-store_in_db_example :
    let w' = record start { db = store_in_db default_config records drawn first_answer start.db } in
    (replay_from_db plain_library default_config memory_driver records counting
      (codes "u")
      (pay [])
      w').0
    ≡ replayed (record { status_code = 201; body = 1 ∷ []; headers = [] })
replay_from_db-store_in_db_example =
    replay_from_db-store_in_db default_config records (list-Laws (λ d. d) (λ l d. l) (λ l d. refl))
      (list-IsReliable (λ d. d) (λ l d. l) (λ l d. refl)) plain_library memory_driver counting drawn
      first_answer start refl refl
