-- ===== src/Server/Frames/Stream.antt =====
-- dtsu_server.py: a stream of bytes that arrives in several reads.
use mathlib.Core.List.{append_assoc, append-nil}
use nd45_dtsu666_converter.Server.Frames.{
  count_capped, count_requests, new_wire, scan_rtu_requests, tail_of, Request, record_chunk,
  WireActivity, frame_request,
}
use nd45_dtsu666_converter.Base.{
  string_eq, nat_eq, Dict, arith, ◌++◌, ◌∷◌, [], List, inr, inl, sym, refl, ◌≡◌, ◌<◌, ◌≤◌, ◌-◌, suc,
  length-drop, length-append, length, Bool-cases, ltb, ℕ,
}

-- Only the first eight bytes of a buffer decide about its first frame.
frame_request_append :
    (xs ys : List ℕ) → 8 ≤ length xs → frame_request (xs ++ ys) ≡ frame_request xs
unfolding frame_request
frame_request_append (_ ∷ _ ∷ _ ∷ _ ∷ _ ∷ _ ∷ _ ∷ _ ∷ xs) ys h = refl
frame_request_append [] ys h = absurd (omega arith)
frame_request_append (_ ∷ []) ys h = absurd (omega arith)
frame_request_append (_ ∷ _ ∷ []) ys h = absurd (omega arith)
frame_request_append (_ ∷ _ ∷ _ ∷ []) ys h = absurd (omega arith)
frame_request_append (_ ∷ _ ∷ _ ∷ _ ∷ []) ys h = absurd (omega arith)
frame_request_append (_ ∷ _ ∷ _ ∷ _ ∷ _ ∷ []) ys h = absurd (omega arith)
frame_request_append (_ ∷ _ ∷ _ ∷ _ ∷ _ ∷ _ ∷ []) ys h = absurd (omega arith)
frame_request_append (_ ∷ _ ∷ _ ∷ _ ∷ _ ∷ _ ∷ _ ∷ []) ys h = absurd (omega arith)

-- Fewer than eight bytes hold no frame.
frame_request_short : (xs : List ℕ) → length xs < 8 → frame_request xs ≡ []
unfolding frame_request
frame_request_short [] h = refl
frame_request_short (_ ∷ []) h = refl
frame_request_short (_ ∷ _ ∷ []) h = refl
frame_request_short (_ ∷ _ ∷ _ ∷ []) h = refl
frame_request_short (_ ∷ _ ∷ _ ∷ _ ∷ []) h = refl
frame_request_short (_ ∷ _ ∷ _ ∷ _ ∷ _ ∷ []) h = refl
frame_request_short (_ ∷ _ ∷ _ ∷ _ ∷ _ ∷ _ ∷ []) h = refl
frame_request_short (_ ∷ _ ∷ _ ∷ _ ∷ _ ∷ _ ∷ _ ∷ []) h = refl
frame_request_short (_ ∷ _ ∷ _ ∷ _ ∷ _ ∷ _ ∷ _ ∷ _ ∷ xs) h = absurd (omega arith)

scan_short : (xs : List ℕ) → length xs < 8 → scan_rtu_requests xs ≡ []
unfolding scan_rtu_requests
scan_short [] h = refl
scan_short (x ∷ xs) h = rw (frame_request_short (x ∷ xs) h) (scan_short xs (omega arith))

tail_of_short : (xs : List ℕ) → length xs < 8 → tail_of xs ≡ xs
unfolding tail_of
tail_of_short xs h = let e : length xs - 7 ≡ 0 = omega arith in rw e

tail_of_long : (x : ℕ) (xs : List ℕ) → 7 ≤ length xs → tail_of (x ∷ xs) ≡ tail_of xs
unfolding tail_of
tail_of_long x xs h = let e : suc (length xs) - 7 ≡ suc (length xs - 7) = omega arith in rw e

length-tail_of : (xs : List ℕ) → length (tail_of xs) ≤ 7
unfolding tail_of
length-tail_of xs = omega (arith, length-drop (length xs - 7) xs)

-- What a scan of a longer buffer finds beyond the first part: what a scan of the tail with the
-- second part finds.
scan_append :
    (xs ys : List ℕ)
    → scan_rtu_requests (xs ++ ys) ≡ scan_rtu_requests xs ++ scan_rtu_requests (tail_of xs ++ ys)
unfolding scan_rtu_requests
scan_append [] ys = rw (tail_of_short [] (omega arith))
scan_append (x ∷ xs) ys = elim (Bool-cases (ltb (length (x ∷ xs)) 8)) [
  | inl short ↦
      let l : length (x ∷ xs) < 8 = ground arith in
      rw (tail_of_short (x ∷ xs) l, frame_request_short (x ∷ xs) l, scan_short xs (omega arith))
  | inr long ↦
      let l : 8 ≤ length (x ∷ xs) = ground arith in
      rw (frame_request_append (x ∷ xs) ys l, tail_of_long x xs (omega arith), scan_append xs ys)
        (sym (
          append_assoc (frame_request (x ∷ xs)) (scan_rtu_requests xs)
            (scan_rtu_requests (tail_of xs ++ ys))))
]

tail_of_append : (xs ys : List ℕ) → tail_of (tail_of xs ++ ys) ≡ tail_of (xs ++ ys)
tail_of_append [] ys = rw (tail_of_short [] (omega arith))
tail_of_append (x ∷ xs) ys = elim (Bool-cases (ltb (length (x ∷ xs)) 8)) [
  | inl short ↦ rw (tail_of_short (x ∷ xs) (ground arith))
  | inr long ↦
      let l : 8 ≤ length (x ∷ xs) = ground arith in
      rw
        (
          tail_of_long x xs (omega arith),
          tail_of_long x (xs ++ ys) (omega (arith, length-append xs ys)),
        )
        (tail_of_append xs ys)
]

-- A sequence of reads, each with its time, recorded one after the other.
abbrev pub record_all : WireActivity → List (List ℕ × ℕ) → WireActivity
record_all w [] = w
record_all w ((chunk, ts) ∷ rest) = record_all (record_chunk w chunk ts) rest

-- The bytes of the reads, one after the other.
abbrev pub stream : List (List ℕ × ℕ) → List ℕ
stream [] = []
stream ((chunk, _) ∷ rest) = chunk ++ stream rest

count_requests_append :
    (limit : ℕ) (rs qs : List Request) (frames : Dict ℕ ℕ)
    → count_requests limit (rs ++ qs) frames
      ≡ count_requests limit qs (count_requests limit rs frames)
count_requests_append limit [] qs frames = refl
count_requests_append limit (r ∷ rs) qs frames =
    count_requests_append limit rs qs (count_capped limit r.slave frames)

-- What the tracker holds after the bytes `past`.
record Tracks (limit : ℕ) (past : List ℕ) (w : WireActivity) : Type 0 where
  limit_kept : w.max_ids ≡ limit
  counted : w.frames ≡ count_requests limit (scan_rtu_requests past) []
  tail_kept : w.tail ≡ tail_of past
  total : w.bytes_seen ≡ length past

record_chunk-Tracks :
    (limit : ℕ) (past chunk : List ℕ) (ts : ℕ) (w : WireActivity)
    → Tracks limit past w
    → Tracks limit (past ++ chunk) (record_chunk w chunk ts)
unfolding record_chunk
record_chunk-Tracks limit past [] ts w h = rw append-nil h
record_chunk-Tracks limit past (b ∷ bs) ts w h =
    let chunk = b ∷ bs in
    record {
      limit_kept = h.limit_kept;
      counted =
          rw
            (
              scan_append past chunk,
              count_requests_append limit (scan_rtu_requests past)
                  (scan_rtu_requests (tail_of past ++ chunk)) [],
            )
            (rw (h.limit_kept, h.counted, h.tail_kept));
      tail_kept = rw h.tail_kept (tail_of_append past chunk);
      total = omega (arith, h.total, length-append past chunk);
    }

record_all-Tracks :
    (limit : ℕ) (past : List ℕ) (reads : List (List ℕ × ℕ)) (w : WireActivity)
    → Tracks limit past w
    → Tracks limit (past ++ stream reads) (record_all w reads)
record_all-Tracks limit past [] w h = rw append-nil h
record_all-Tracks limit past ((chunk, ts) ∷ rest) w h =
    rw (← append_assoc past chunk (stream rest)) (
      record_all-Tracks limit (past ++ chunk) rest (record_chunk w chunk ts)
        (record_chunk-Tracks limit past chunk ts w h))

new_wire-Tracks : (limit : ℕ) → Tracks limit [] (new_wire limit)
unfolding new_wire scan_rtu_requests tail_of
new_wire-Tracks limit = record { limit_kept = refl; counted = refl; tail_kept = refl; total = refl }

-- However the bytes of the port are cut into reads, a new tracker ends with the request counts of
-- one scan of the whole stream, and with the number of its bytes: a frame that is split between
-- reads is counted, and none is counted twice.
pub record_all-stream :
    (max_ids : ℕ) (reads : List (List ℕ × ℕ))
    → ((record_all (new_wire max_ids) reads).frames
        ≡ count_requests max_ids (scan_rtu_requests (stream reads)) [])
      × ((record_all (new_wire max_ids) reads).bytes_seen ≡ length (stream reads))
record_all-stream max_ids reads =
    let h = record_all-Tracks max_ids [] reads (new_wire max_ids) (new_wire-Tracks max_ids) in
    (h.counted, h.total)
