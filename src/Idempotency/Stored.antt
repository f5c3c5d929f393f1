-- ===== src/Idempotency/Stored.antt =====
-- What the table of records gives back of an answer that internal/http/middleware/idempotency.go has
-- stored in it.
use base_go_api.Prelude.{
  ℕ, String, ◌≡◌, refl, ap, sym, ◌∙◌, subst, Bool, true, List, [], ◌∷◌, arith, ◌==◌, inl, inr, leb,
  length, if◌then◌else◌, ==_refl,
}
use base_go_api.Prelude.Bytes.{Bytes, bytes_eq_refl}
use base_go_api.Prelude.Outcome.{Outcome, ok, err}
use base_go_api.Sql.Table.{Table, Laws, IsReliable, In, count, updated, none_passes}
use base_go_api.Idempotency.Recorder.{Headers}
use base_go_api.Idempotency.Record.{
  IdempotencyRecord, is_for, with_result, find_record, update_record, create_record,
}
use base_go_api.Idempotency.Request.{
  Library, Config, Request, Run, replayed, Pending, World, max_size,
}
use base_go_api.Idempotency.Middleware.{replay_from_db}
use base_go_api.Cache.Driver.{Driver}
use base_go_api.Idempotency.Store.{Draws, record_of, store_in_db}

-- The test of `FindByKey` for a stored answer.
abbrev own : Pending → IdempotencyRecord → Bool
own p = is_for p.request.raw_key p.user p.request.method p.request.path

module _ (id : ℕ) (status : String) (code : ℕ) (body : Bytes) (hs : Headers) (p : Pending) where
  none_passes-updated :
      (xs : List IdempotencyRecord)
      → none_passes (own p) xs ≡ true
      → none_passes (own p) (updated (λ r. r.id == id) (with_result status code body hs) xs) ≡ true
  none_passes-updated [] h = refl
  none_passes-updated (x ∷ xs) h = ground (arith, none_passes-updated xs)

no_such_row :
    (f : IdempotencyRecord → Bool) (xs : List IdempotencyRecord) (r : IdempotencyRecord)
    → none_passes f xs ≡ true
    → f r ≡ true
    → In r xs
    → ⊥
no_such_row f [] r h passes there = there
no_such_row f (x ∷ xs) r h passes (inl e) = let same = ap f e in ground arith
no_such_row f (x ∷ xs) r h passes (inr there) = no_such_row f xs r (ground arith) passes there

abbrev kept : Config → Draws → Pending → IdempotencyRecord
kept cfg s p =
    with_result "completed" p.status_code
      (if leb (length p.body) (max_size cfg) then p.body else []) p.headers (record_of cfg s p)

own-kept : (cfg : Config) (s : Draws) (p : Pending) → own p (kept cfg s p) ≡ true
own-kept cfg s p =
    rw
      (
        bytes_eq_refl p.request.raw_key,
        bytes_eq_refl p.user,
        bytes_eq_refl p.request.method,
        bytes_eq_refl p.request.path,
      )
      refl

module _ (cfg : Config) {D : Type 0} (records : Table D IdempotencyRecord) (laws : Laws records)
    (reliable : IsReliable records laws) where
  open laws use {rows, create_ok, update_ok, first_ok, first_none}

  -- The body that is kept.
  abbrev kept_body : Pending → Bytes
  kept_body p = if leb (length p.body) (max_size cfg) then p.body else []

  update_record_state :
      (id code : ℕ) (status : String) (body : Bytes) (hs : Headers) (d : D)
      → (update_record records id status code body hs d).1
        ≡ (records.update (λ r. r.id == id) (with_result status code body hs) d).1
  unfolding update_record
  update_record_state id code status body hs d = ground arith

  create_record_state :
      (r : IdempotencyRecord) (d : D) → (create_record records r d).1 ≡ (records.create r d).1
  unfolding create_record
  create_record_state r d = ground arith

  store_in_db-created :
      (s : Draws) (p : Pending) (d : D)
      → (records.create (record_of cfg s p) d).0 ≡ ok tt
      → store_in_db cfg records s p d
        ≡ (records.update
            (λ r. r.id == s.row)
            (with_result "completed" p.status_code (kept_body p) p.headers)
            (records.create (record_of cfg s p) d).1).1
  unfolding store_in_db create_record
  store_in_db-created s p d made =
      rw (store_in_db, create_record, made)
        (update_record_state s.row p.status_code "completed" (kept_body p) p.headers
            (create_record records (record_of cfg s p) d).1
          ∙ ap
              (λ e.
                (records.update (λ r. r.id == s.row)
                  (with_result "completed" p.status_code (kept_body p) p.headers) e).1)
              (create_record_state (record_of cfg s p) d))

  rows-store_in_db :
      (s : Draws) (p : Pending) (d : D)
      → (records.create (record_of cfg s p) d).0 ≡ ok tt
      → rows (store_in_db cfg records s p d)
        ≡ kept cfg s p
          ∷ updated
              (λ r. r.id == s.row)
              (with_result "completed" p.status_code (kept_body p) p.headers)
              (rows d)
  rows-store_in_db s p d made =
      let test : IdempotencyRecord → Bool = λ r. r.id == s.row in
      let f = with_result "completed" p.status_code (kept_body p) p.headers in
      let d1 = (records.create (record_of cfg s p) d).1 in
      ap rows (store_in_db-created s p d made)
      ∙ (update_ok test f d1 (count test (rows d1)) (reliable.update_runs test f d1)).1
      ∙ ap (updated test f) (create_ok (record_of cfg s p) d made)
      ∙ rw (==_refl s.row) refl

  -- The row that `FindByKey` finds.
  first-store_in_db :
      (s : Draws) (p : Pending) (d : D)
      → (records.create (record_of cfg s p) d).0 ≡ ok tt
      → none_passes (own p) (rows d) ≡ true
      → (records.first (own p) (store_in_db cfg records s p d)).0 ≡ ok (kept cfg s p)
  first-store_in_db s p d made new = go (records.first (own p) d2).0 refl
    where
      d2 : D
      d2 = store_in_db cfg records s p d

      others : List IdempotencyRecord
      others =
          updated (λ r. r.id == s.row)
            (with_result "completed" p.status_code (kept_body p) p.headers) (rows d)

      there : rows d2 ≡ kept cfg s p ∷ others
      there = rows-store_in_db s p d made

      absent : none_passes (own p) others ≡ true
      absent =
          none_passes-updated s.row "completed" p.status_code (kept_body p) p.headers p (rows d) new

      go :
          (o : Outcome IdempotencyRecord)
          → (records.first (own p) d2).0 ≡ o
          → (records.first (own p) d2).0 ≡ ok (kept cfg s p)
      go (ok r) e =
          let (passes, among) = first_ok (own p) d2 r e in
          elim (subst (In r) there among) [
            | inl same ↦ e ∙ ap ok same
            | inr other ↦ elim (no_such_row (own p) others r absent passes other) [ ]
          ]
      go (err x) e =
          let missing = ap err (reliable.first_runs (own p) d2 x e) in
          let nowhere = first_none (own p) d2 (e ∙ missing) in
          let found = own-kept cfg s p in
          let none_there = ap (none_passes (own p)) (sym there) ∙ nowhere in ground arith

  -- Over a reliable table without a record for the key, user, method and path of a request, once the
  -- record is created and completed, the answer out of the table has the status and the headers that
  -- were captured, and the body where it is within the limit, but an empty body where it is above.
  pub replay_from_db-store_in_db :
      (lib : Library) (cache : Driver) {A : Type 0} (next : Request → A → Run × A) (s : Draws)
      (p : Pending) (w : World cache.State D A)
      → (records.create (record_of cfg s p) w.db).0 ≡ ok tt
      → none_passes (own p) (rows w.db) ≡ true
      → let w' = record w { db = store_in_db cfg records s p w.db } in
        (replay_from_db lib cfg cache records next p.user p.request w').0
        ≡ replayed (record {
          status_code = p.status_code;
          body = if leb (length p.body) (max_size cfg) then p.body else [];
          headers = p.headers;
        })
  unfolding replay_from_db find_record
  replay_from_db-store_in_db lib cache next s p w made new =
      rw (replay_from_db, find_record, first-store_in_db s p w.db made new) refl
