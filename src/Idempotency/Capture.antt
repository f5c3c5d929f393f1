-- ===== src/Idempotency/Capture.antt =====
-- What the writer of internal/http/middleware/idempotency.go keeps of the body and of the headers.
use base_go_api.Prelude.{
  ℕ, ◌+◌, ◌≤◌, ◌≡◌, refl, ap, sym, ◌∙◌, true, List, [], ◌∷◌, ◌++◌, arith, leb, length,
  if◌then◌else◌, ◌==◌, keep, ◌↔◌, subst,
}
use base_go_api.Prelude.Bytes.{Bytes}
use base_go_api.Idempotency.Recorder.{
  Headers, Write, header, chunk, Recorder, fresh, max_capture, replay_headers, write, write_all,
  status_of,
}

-- The body that the client gets.
abbrev pub sent : List Write → Bytes
sent [] = []
sent (header code hs ∷ ws) = sent ws
sent (chunk b hs ∷ ws) = b ++ sent ws

abbrev pub first_status : List Write → ℕ
first_status [] = 200
first_status (header code hs ∷ ws) = if code == 0 then 200 else code
first_status (chunk b hs ∷ ws) = 200

abbrev pub first_headers : List Write → Headers
first_headers [] = []
first_headers (header code hs ∷ ws) = keep (λ h. replay_headers h.0) hs
first_headers (chunk b hs ∷ ws) = keep (λ h. replay_headers h.0) hs

length_append : (a b : Bytes) → length (a ++ b) ≡ length a + length b
length_append [] b = ground arith
length_append (x ∷ a) b = ground (arith, length_append a b)

append_assoc : (a b c : Bytes) → (a ++ b) ++ c ≡ a ++ (b ++ c)
append_assoc [] b c = refl
append_assoc (x ∷ a) b c = ap (λ t. x ∷ t) (append_assoc a b c)

append_nil : (a : Bytes) → a ++ [] ≡ a
append_nil [] = refl
append_nil (x ∷ a) = ap (λ t. x ∷ t) (append_nil a)

-- Once the answer has begun, its status and its headers stay.
write_all-wrote :
    (ws : List Write) (r : Recorder)
    → r.wrote ≡ true
    → ((write_all ws r).status_code ≡ r.status_code) × ((write_all ws r).headers ≡ r.headers)
unfolding write_all write
write_all-wrote [] r begun = (refl, refl)
write_all-wrote (header code hs ∷ ws) r begun =
    ground (arith, write_all-wrote ws (write (header code hs) r))
write_all-wrote (chunk b hs ∷ ws) r begun =
    ground (arith, write_all-wrote ws (write (chunk b hs) r))

body_header : (code : ℕ) (hs : Headers) (r : Recorder) → (write (header code hs) r).body ≡ r.body
unfolding write
body_header code hs r = ground arith

body_chunk :
    (b : Bytes) (hs : Headers) (r : Recorder)
    → (write (chunk b hs) r).body
      ≡ (if leb (length r.body + length b) max_capture then r.body ++ b else r.body)
unfolding write
body_chunk b hs r = ground arith

body_fits :
    (ws : List Write) (r : Recorder)
    → length r.body + length (sent ws) ≤ max_capture
    → (write_all ws r).body ≡ r.body ++ sent ws
unfolding write_all
body_fits [] r le = sym (append_nil r.body)
body_fits (header code hs ∷ ws) r le =
    let same = body_header code hs r in
    body_fits ws (write (header code hs) r) (rw same le) ∙ ap (λ b. b ++ sent ws) same
body_fits (chunk b hs ∷ ws) r le =
    let sizes = length_append b (sent ws) in
    let grows : (write (chunk b hs) r).body ≡ r.body ++ b = body_chunk b hs r ∙ ground arith in
    let both = length_append r.body b in
    body_fits ws (write (chunk b hs) r) (rw grows (omega arith))
    ∙ ap (λ c. c ++ sent ws) grows
    ∙ append_assoc r.body b (sent ws)

body_bound :
    (ws : List Write) (r : Recorder)
    → length r.body ≤ max_capture
    → length (write_all ws r).body ≤ max_capture
unfolding write_all
body_bound [] r le = le
body_bound (header code hs ∷ ws) r le =
    body_bound ws (write (header code hs) r) (rw (body_header code hs r) le)
body_bound (chunk b hs ∷ ws) r le =
    let both = length_append r.body b in
    body_bound ws (write (chunk b hs) r) (rw (body_chunk b hs r) (ground arith))

-- Whatever a handler writes, the answer that is kept has the status of the first call of the writer
-- (200 for none, or where it has no code), of its headers those that a replay sends, and the body
-- that was sent exactly when that is 5120 bytes at most.
pub captured :
    (ws : List Write)
    → (status_of (write_all ws fresh) ≡ first_status ws)
      × ((write_all ws fresh).headers ≡ first_headers ws)
      × (((write_all ws fresh).body ≡ sent ws) ↔ (length (sent ws) ≤ max_capture))
unfolding write_all write
captured ws = (status ws, headers ws, (whole, λ le. body_fits ws fresh (ground arith)))
  where
    status : (ws : List Write) → status_of (write_all ws fresh) ≡ first_status ws
    status [] = refl
    status (header code hs ∷ ws) =
        ap (λ c. if c == 0 then 200 else c)
          (write_all-wrote ws (write (header code hs) fresh) refl).0
    status (chunk b hs ∷ ws) =
        ap (λ c. if c == 0 then 200 else c)
          (write_all-wrote ws (write (chunk b hs) fresh) (ground arith)).0
        ∙ ground arith

    headers : (ws : List Write) → (write_all ws fresh).headers ≡ first_headers ws
    headers [] = refl
    headers (header code hs ∷ ws) = (write_all-wrote ws (write (header code hs) fresh) refl).1
    headers (chunk b hs ∷ ws) =
        (write_all-wrote ws (write (chunk b hs) fresh) (ground arith)).1 ∙ ground arith

    whole : (write_all ws fresh).body ≡ sent ws → length (sent ws) ≤ max_capture
    whole e = subst (λ b. length b ≤ max_capture) e (body_bound ws fresh (omega arith))
