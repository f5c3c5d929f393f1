-- ===== src/Idempotency/Codec.antt =====
-- A library of concrete functions, in which what is read back is what was written.
use base_go_api.Prelude.{ℕ, zero, suc, ◌≡◌, refl, true, [], ◌∷◌, Option, none, some, length}
use base_go_api.Prelude.Bytes.{Bytes}
use base_go_api.Idempotency.Recorder.{Headers}
use base_go_api.Idempotency.Request.{Library, Roundtrips, Lock, CachedResponse}

-- A text, shifted by one and ended by 0.
abbrev frame : Bytes → Bytes → Bytes
frame [] s = 0 ∷ s
frame (c ∷ b) s = suc c ∷ frame b s

abbrev unframe : Bytes → Bytes × Bytes
unframe [] = ([], [])
unframe (zero ∷ s) = ([], s)
unframe (suc c ∷ s) = let (b, rest) = unframe s in (c ∷ b, rest)

unframe-frame : (b s : Bytes) → unframe (frame b s) ≡ (b, s)
unframe-frame [] s = refl
unframe-frame (c ∷ b) s = rw (unframe-frame b s) refl

abbrev frames : Headers → Bytes → Bytes
frames [] s = s
frames ((name, value) ∷ hs) s = frame name (frame value (frames hs s))

abbrev unframes : ℕ → Bytes → Headers
unframes zero s = []
unframes (suc n) s =
    let (name, s1) = unframe s in let (value, s2) = unframe s1 in (name, value) ∷ unframes n s2

unframes-frames : (hs : Headers) (s : Bytes) → unframes (length hs) (frames hs s) ≡ hs
unframes-frames [] s = refl
unframes-frames ((name, value) ∷ hs) s =
    rw
      (
        unframe-frame name (frame value (frames hs s)),
        unframe-frame value (frames hs s),
        unframes-frames hs s,
      )
      refl

abbrev read_lock : Bytes → Option Lock
read_lock s =
    let (status, hash) = unframe s in some (record { status = status; request_hash = hash })

abbrev write_response : CachedResponse → Bytes
write_response r = r.status_code ∷ (length r.headers ∷ frame r.body (frames r.headers []))

abbrev read_response : Bytes → Option CachedResponse
read_response [] = none
read_response (code ∷ []) = none
read_response (code ∷ (n ∷ s)) =
    let (body, rest) = unframe s in
    some (record { status_code = code; body = body; headers = unframes n rest })

abbrev pub plain_library : Library
plain_library = record {
  write_lock = λ l. frame l.status l.request_hash;
  read_lock = read_lock;
  write_response = write_response;
  read_response = read_response;
  matches = λ s. true;
  sha256_hex = λ s. s;
  to_lower = λ s. s;
}

pub plain-Roundtrips : Roundtrips plain_library
plain-Roundtrips = record {
  read_lock-write_lock = λ l. rw (unframe-frame l.status l.request_hash) refl;
  read_response-write_response =
      λ r. rw (unframe-frame r.body (frames r.headers []), unframes-frames r.headers []) refl;
}
