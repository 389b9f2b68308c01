-- ===== src/Server/Frames.antt =====
-- dtsu_server.py: Modbus RTU request frames on the wire. `rtu_crc`, `scan_rtu_requests` and
-- `WireActivity`, which counts requests before pymodbus filters them by slave id. A byte is a
-- number below 256; `crc >> 1` and `crc & 1` are written as quotient and remainder.
pub mod Bits
pub mod Crc
pub mod Stream
use Prim.Native.Nat.{bit_xor}
use nd45_dtsu666_converter.Base.{
  ◌++◌, ◌∷◌, [], List, some, none, Option, ◌||◌, not, ◌%◌, ◌/◌, ◌-◌, ◌+◌, suc, zero, insert,
  contains, lookup, mem, Dict, drop, length, Eq, string_eq, nat_eq, if◌then◌else◌, eqb, ltb, ℕ,
}
use nd45_dtsu666_converter.Codec.{from_bytes}

-- `_RTU_REQUEST_LEN`
abbrev pub rtu_request_len : ℕ
rtu_request_len = 8

abbrev pub request_function_codes : List ℕ
request_function_codes = 1 ∷ 2 ∷ 3 ∷ 4 ∷ 5 ∷ 6 ∷ []

-- one round of the inner loop
unfoldable pub crc_shift : ℕ → ℕ
crc_shift crc = if eqb (crc % 2) 1 then bit_xor (crc / 2) 0xA001 else crc / 2

unfoldable pub crc_shifts : ℕ → ℕ → ℕ
crc_shifts zero crc = crc
crc_shifts (suc n) crc = crc_shifts n (crc_shift crc)

unfoldable pub crc_from : ℕ → List ℕ → ℕ
crc_from crc [] = crc
crc_from crc (byte ∷ rest) = crc_from (crc_shifts 8 (bit_xor crc byte)) rest

unfoldable pub rtu_crc : List ℕ → ℕ
rtu_crc bytes = crc_from 0xFFFF bytes

-- (slave, fc, addr, count)
pub record Request : Type 0 where
  pub slave : ℕ
  pub fc : ℕ
  pub addr : ℕ
  pub count : ℕ

-- One round of the loop of `scan_rtu_requests`, at a frame of eight bytes.
unfoldable pub frame_request : List ℕ → List Request
frame_request (slave ∷ fc ∷ a ∷ b ∷ c ∷ d ∷ lo ∷ hi ∷ _) =
    if not (mem fc request_function_codes)
    then []
    else if not (eqb (rtu_crc (slave ∷ fc ∷ a ∷ b ∷ c ∷ d ∷ [])) (from_bytes 0 (hi ∷ lo ∷ [])))
    then []
    else record {
      slave = slave;
      fc = fc;
      addr = from_bytes 0 (a ∷ b ∷ []);
      count = from_bytes 0 (c ∷ d ∷ []);
    }
      ∷ []
frame_request _ = []

-- `scan_rtu_requests`: the round of index `i` looks at the buffer from its byte `i` on, and the
-- range of the loop ends where fewer than eight bytes are left.
unfoldable pub scan_rtu_requests : List ℕ → List Request
scan_rtu_requests [] = []
scan_rtu_requests (byte ∷ rest) = frame_request (byte ∷ rest) ++ scan_rtu_requests rest

-- `buffer[-(_RTU_REQUEST_LEN - 1):]`
unfoldable pub tail_of : List ℕ → List ℕ
tail_of buffer = drop (length buffer - (rtu_request_len - 1)) buffer

pub record WireActivity : Type 0 where
  pub bytes_seen : ℕ
  pub last_ts : Option ℕ
  pub frames : Dict ℕ ℕ
  pub max_ids : ℕ
  pub tail : List ℕ

unfoldable pub new_wire : ℕ → WireActivity
new_wire max_ids = record {
  bytes_seen = 0;
  last_ts = none;
  frames = [];
  max_ids = max_ids;
  tail = [];
}

-- `counter[key] += 1`
abbrev pub increment : {K : Type 0} ⦃e : Eq K⦄ → K → Dict K ℕ → Dict K ℕ
increment key counter = insert key (elim (lookup key counter) [ none ↦ 1 | some n ↦ n + 1 ]) counter

-- Count a key if it is tracked already or there is room for one more.
unfoldable pub count_capped : {K : Type 0} ⦃e : Eq K⦄ → ℕ → K → Dict K ℕ → Dict K ℕ
count_capped cap key counter =
    if contains key counter || ltb (length counter) cap then increment key counter else counter

abbrev pub count_requests : ℕ → List Request → Dict ℕ ℕ → Dict ℕ ℕ
count_requests max_ids [] frames = frames
count_requests max_ids (r ∷ rs) frames =
    count_requests max_ids rs (count_capped max_ids r.slave frames)

-- the requests that one call of `record` finds
abbrev pub found_in : WireActivity → List ℕ → List Request
found_in w [] = []
found_in w (byte ∷ rest) = scan_rtu_requests (w.tail ++ byte ∷ rest)

unfoldable pub record_chunk : WireActivity → List ℕ → ℕ → WireActivity
record_chunk w [] ts = w
record_chunk w (byte ∷ rest) ts =
    let chunk = byte ∷ rest in
    record w {
      bytes_seen = w.bytes_seen + length chunk;
      last_ts = some ts;
      frames = count_requests w.max_ids (found_in w chunk) w.frames;
      tail = tail_of (w.tail ++ chunk);
    }
