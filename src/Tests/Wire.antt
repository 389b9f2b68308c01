-- ===== src/Tests/Wire.antt =====
-- Frames and streams at concrete bytes.
use nd45_dtsu666_converter.Server.Frames.Stream.{stream, record_all, record_all-stream}
use nd45_dtsu666_converter.Server.Frames.{Request, count_requests, new_wire, scan_rtu_requests}
use nd45_dtsu666_converter.Base.{arith, ◌++◌, ◌∷◌, [], List, refl, ◌≡◌, length, ℕ}
use nd45_dtsu666_converter.Server.Frames.Crc.{scan_finds_request, IsRequest, request_frame}

abbrev some_request : Request
some_request = record { slave = 1; fc = 3; addr = 8192; count = 2 }

some_request-IsRequest : IsRequest some_request
some_request-IsRequest = record {
  slave_byte = omega arith;
  code_known = refl;
  addr_word = omega arith;
  count_word = omega arith;
}

scan_finds_request_example :
    (before after : List Request) × (scan_rtu_requests
        ((255 ∷ 3 ∷ []) ++ (request_frame some_request ++ 7 ∷ []))
      ≡ before ++ some_request ∷ after)
scan_finds_request_example =
    scan_finds_request (255 ∷ 3 ∷ []) (7 ∷ []) some_request some_request-IsRequest

-- A frame in two pieces.
abbrev two_reads : List (List ℕ × ℕ)
two_reads = (1 ∷ 3 ∷ 32 ∷ 0 ∷ [], 10) ∷ (0 ∷ 2 ∷ 207 ∷ 203 ∷ [], 11) ∷ []

record_all-stream_example :
    ((record_all (new_wire 8) two_reads).frames
      ≡ count_requests 8 (scan_rtu_requests (stream two_reads)) [])
    × ((record_all (new_wire 8) two_reads).bytes_seen ≡ length (stream two_reads))
record_all-stream_example = record_all-stream 8 two_reads
