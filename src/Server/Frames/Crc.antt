-- ===== src/Server/Frames/Crc.antt =====
-- dtsu_server.py: `rtu_crc` and the frames that carry it.
use mathlib.Core.List.{append_assoc}
use nd45_dtsu666_converter.Server.Frames.Bits.{bit_xor_low_byte, bit_xor_bound}
use nd45_dtsu666_converter.Server.Frames.{
  Request, scan_rtu_requests, frame_request, request_function_codes, crc_shift, crc_shifts, rtu_crc,
  crc_from,
}
use Prim.Native.Nat.{bit_xor}
use nd45_dtsu666_converter.Base.{
  drop, true, ◌∙◌, ap, sym, ◌+◌, mem, string_eq, nat_eq, arith, ◌++◌, ◌∷◌, [], List, refl, ◌≡◌, ◌<◌,
  ◌%◌, ◌/◌, ◌*◌, suc, zero, All, ℕ,
}

abbrev pub Bytes : List ℕ → Type 0
Bytes bs = All (λ b. b < 256) bs

crc_shift_bound : (c : ℕ) → c < 65536 → crc_shift c < 65536
unfolding crc_shift
crc_shift_bound c h =
    let x : bit_xor (c / 2) 0xA001 < 65536 =
      bit_xor_bound 16 (c / 2) 0xA001 (omega arith) (omega arith) in
    ground arith

crc_shifts_bound : (n c : ℕ) → c < 65536 → crc_shifts n c < 65536
unfolding crc_shifts
crc_shifts_bound zero c h = h
crc_shifts_bound (suc n) c h = crc_shifts_bound n (crc_shift c) (crc_shift_bound c h)

crc_from_bound : (c : ℕ) (bs : List ℕ) → c < 65536 → Bytes bs → crc_from c bs < 65536
unfolding crc_from
crc_from_bound c [] h hs = h
crc_from_bound c (b ∷ bs) h hs =
    let b16 : b < 65536 = omega (arith, hs.0) in
    crc_from_bound (crc_shifts 8 (bit_xor c b)) bs
      (crc_shifts_bound 8 (bit_xor c b) (bit_xor_bound 16 c b h b16)) hs.1

-- The checksum of bytes fits the two bytes that carry it.
pub rtu_crc_bound : (bs : List ℕ) → Bytes bs → rtu_crc bs < 65536
unfolding rtu_crc
rtu_crc_bound bs h = crc_from_bound 0xFFFF bs (omega arith) h

crc_from_append : (c : ℕ) (xs ys : List ℕ) → crc_from c (xs ++ ys) ≡ crc_from (crc_from c xs) ys
unfolding crc_from
crc_from_append c [] ys = refl
crc_from_append c (x ∷ xs) ys = crc_from_append (crc_shifts 8 (bit_xor c x)) xs ys

crc_shift_even : (c : ℕ) → crc_shift (2 * c) ≡ c
unfolding crc_shift
crc_shift_even c = ground arith

-- Eight rounds shift a clear low byte out.
crc_shifts_clear : (q : ℕ) → crc_shifts 8 (q * 256) ≡ q
unfolding crc_shifts
crc_shifts_clear q =
    let e : q * 256 ≡ 2 * (2 * (2 * (2 * (2 * (2 * (2 * (2 * q))))))) = omega arith in
    rw (
      e,
      crc_shift_even (2 * (2 * (2 * (2 * (2 * (2 * (2 * q))))))),
      crc_shift_even (2 * (2 * (2 * (2 * (2 * (2 * q)))))),
      crc_shift_even (2 * (2 * (2 * (2 * (2 * q))))),
      crc_shift_even (2 * (2 * (2 * (2 * q)))),
      crc_shift_even (2 * (2 * (2 * q))),
      crc_shift_even (2 * (2 * q)),
      crc_shift_even (2 * q),
      crc_shift_even q,
    )

clears : (q r : ℕ) → q < 256 → r < 256 → crc_shifts 8 (bit_xor (q * 256 + r) r) ≡ q
clears q r p h = rw (bit_xor_low_byte q r p h) (crc_shifts_clear q)

residue :
    (c : ℕ) → c < 65536 → crc_shifts 8 (bit_xor (crc_shifts 8 (bit_xor c (c % 256))) (c / 256)) ≡ 0
residue c p =
    let low : crc_shifts 8 (bit_xor c (c % 256)) ≡ c / 256 =
      ap (λ (t : ℕ). crc_shifts 8 (bit_xor t (c % 256))) (omega arith)
      ∙ clears (c / 256) (c % 256) (omega arith) (omega arith) in
    rw low (
      ap (λ (t : ℕ). crc_shifts 8 (bit_xor t (c / 256))) (omega arith)
      ∙ clears 0 (c / 256) (omega arith) (omega arith))

-- The defining property of the code: bytes followed by their checksum, low byte first, have the
-- checksum zero.
pub rtu_crc_residue :
    (bs : List ℕ) → Bytes bs → rtu_crc (bs ++ (rtu_crc bs % 256) ∷ (rtu_crc bs / 256) ∷ []) ≡ 0
unfolding rtu_crc crc_from
rtu_crc_residue bs h =
    crc_from_append 0xFFFF bs _
    ∙ residue (crc_from 0xFFFF bs) (crc_from_bound 0xFFFF bs (omega arith) h)

-- An independent reading of the frame format: how a master builds a read request.
abbrev pub request_body : Request → List ℕ
request_body r =
    r.slave ∷ r.fc ∷ (r.addr / 256) ∷ (r.addr % 256) ∷ (r.count / 256) ∷ (r.count % 256) ∷ []

abbrev pub request_frame : Request → List ℕ
request_frame r =
    request_body r ++ (rtu_crc (request_body r) % 256) ∷ (rtu_crc (request_body r) / 256) ∷ []

-- A request whose fields fit the frame, with a function code of 1 to 6.
pub record IsRequest (r : Request) : Type 0 where
  pub slave_byte : r.slave < 256
  pub code_known : mem r.fc request_function_codes ≡ true
  pub addr_word : r.addr < 65536
  pub count_word : r.count < 65536

code_byte : (fc : ℕ) → mem fc request_function_codes ≡ true → fc < 256
code_byte fc h = ground arith

pub frame_request_found :
    (r : Request) (rest : List ℕ) → IsRequest r → frame_request (request_frame r ++ rest) ≡ r ∷ []
unfolding frame_request
frame_request_found r rest h =
    let crc = rtu_crc (request_body r) in
    let bound : crc < 65536 = rtu_crc_bound (request_body r) (bytes r h) in ground arith
  where
    bytes : (r : Request) → IsRequest r → Bytes (request_body r)
    bytes r h = (
      h.slave_byte,
      (
        code_byte r.fc h.code_known,
        (
          omega (arith, h.addr_word),
          (omega arith, (omega (arith, h.count_word), (omega arith, tt))),
        ),
      ),
    )

-- A request whose fields fit its frame is found, with its own fields, wherever that frame stands
-- among other bytes.
pub scan_finds_request :
    (past rest : List ℕ) (r : Request)
    → IsRequest r
    → (before after : List Request) × (scan_rtu_requests (past ++ (request_frame r ++ rest))
        ≡ before ++ r ∷ after)
unfolding scan_rtu_requests
scan_finds_request [] rest r h =
    ([], scan_rtu_requests (drop 1 (request_frame r ++ rest)), rw (frame_request_found r rest h))
scan_finds_request (x ∷ past) rest r h =
    let (before, after, e) = scan_finds_request past rest r h in
    (
      frame_request (x ∷ (past ++ (request_frame r ++ rest))) ++ before,
      after,
      rw e (sym (append_assoc _ before (r ∷ after))),
    )
