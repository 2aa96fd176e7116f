-- ===== src/Send/Verify/Contents.antt =====
-- The contents of a generator's segment and what core/output.c adds to the sum for them: the sums of
-- the constant headers, the digits of the length, and the sum of the characters.
use smews.Base.{
  ℕ, ◌+◌, ◌*◌, ◌/◌, ◌%◌, ◌≡◌, ◌<◌, refl, ap, arith, true, List, [], ◌∷◌, ◌++◌, map, length,
  length-append, u16,
}
use smews.Checksum.{Sum}
use smews.Checksum.Ones.{byte, pair, FitsAll, amount_all, FitsAll-append}
use smews.Handlers.{generator, Persistence}
use smews.Service.{ServiceHeader, header_none, header_standard, header_chunks}
use smews.Connections.{HttpConnection}
use smews.Send.Packet.{
  CurrOutput, segment_length, service_http_header, service_http_header_part2,
  service_http_header_chunked,
}
use smews.Send.Segment.{contents, length_digits, write_digits}
use smews.Send.Generate.Written.{IsBytes, holding, FitsAll-bytes}
use smews.Send.Generate.Response.Chunks.{take-all}
use smews.Send.Verify.{Weighs, IsBytes-append}
use smews.Send.Verify.Line.{
  decimal_digits, hex_digits, line_end, line_items, header_items, content_items, over,
  hex_char-byte, decimal_line, hex_line, content_header, content_bytes, amount-standard,
  amount-chunks, amount-none,
}

IsBytes-hex : (n : ℕ) → IsBytes (hex_digits n)
IsBytes-hex n = ground (
  arith,
  hex_char-byte (n % 16),
  hex_char-byte (n / 16 % 16),
  hex_char-byte (n / 16 / 16 % 16),
  hex_char-byte (n / 16 / 16 / 16 % 16),
)

line-fits : (n : ℕ) → FitsAll true (line_items n)
line-fits n =
    FitsAll-append true (map byte (0 ∷ (hex_digits n ++ (0 ∷ []))))
      (pair 0x0d0a ∷ pair (u16 (line_end n)) ∷ []) refl
      (FitsAll-bytes true (0 ∷ (hex_digits n ++ (0 ∷ [])))
        (omega arith, IsBytes-append (hex_digits n) (0 ∷ []) (IsBytes-hex n) (omega arith)))
      ((refl, omega arith), ((refl, omega arith), tt))

header-fits : (header : ServiceHeader) (n : ℕ) → FitsAll true (header_items header n)
header-fits header_standard n =
    ((refl, omega arith), FitsAll-bytes true (0 ∷ (decimal_digits n ++ (0 ∷ []))) (omega arith))
header-fits header_chunks n = ((refl, omega arith), line-fits n)
header-fits header_none n = line-fits n

hex_line-IsBytes : (n : ℕ) → IsBytes (hex_line n)
hex_line-IsBytes n = ground (arith, IsBytes-hex n)

chunk-IsBytes : (cs : List ℕ) → IsBytes cs → IsBytes (content_bytes header_none cs)
chunk-IsBytes cs h =
    IsBytes-append (hex_line (length cs)) (13 ∷ 10 ∷ (cs ++ (13 ∷ 10 ∷ [])))
      (hex_line-IsBytes (length cs))
      (omega arith, (omega arith, IsBytes-append cs (13 ∷ 10 ∷ []) h (omega arith)))

content_bytes-IsBytes :
    (header : ServiceHeader) (cs : List ℕ) → IsBytes cs → IsBytes (content_bytes header cs)
content_bytes-IsBytes header_standard cs h =
    IsBytes-append service_http_header
      (decimal_line (length cs) ++ (service_http_header_part2 ++ cs)) (omega arith)
      (IsBytes-append (decimal_line (length cs)) (service_http_header_part2 ++ cs) (omega arith)
        (IsBytes-append service_http_header_part2 cs (omega arith) h))
content_bytes-IsBytes header_chunks cs h =
    IsBytes-append service_http_header_chunked (content_bytes header_none cs) (omega arith)
      (chunk-IsBytes cs h)
content_bytes-IsBytes header_none cs h = chunk-IsBytes cs h

pub content-Weighs :
    (header : ServiceHeader) (out : CurrOutput) (cs : List ℕ)
    → IsBytes cs
    → Weighs
        (content_items (record (holding out cs) { service_header = header }))
        (content_bytes header cs)
content-Weighs header out cs h = record {
  item_fits = ((refl, omega arith), header-fits header (length cs));
  byte_fits = content_bytes-IsBytes header cs h;
  more = 0;
  less = elim header [
    | header_standard ↦ 9 + over cs
    | header_chunks ↦ 11 + over cs
    | header_none ↦ over cs
  ];
  same = weighs header;
}
  where
    weighs :
        (k : ServiceHeader)
        → amount_all true (map byte (content_bytes k cs)) + 0 * 65535
          ≡ amount_all true (content_items (record (holding out cs) { service_header = k }))
            + elim k [
              | header_standard ↦ 9 + over cs
              | header_chunks ↦ 11 + over cs
              | header_none ↦ over cs
            ]
              * 65535
    weighs header_standard = omega (arith, amount-standard cs)
    weighs header_chunks = omega (arith, amount-chunks cs)
    weighs header_none = omega (arith, amount-none cs)

pub contents-bytes :
    (header : ServiceHeader) (s : Sum) (h : HttpConnection) (prop : Persistence) (len : ℕ)
    (out : CurrOutput) (cs : List ℕ)
    → contents
        (record (holding out cs) { service_header = header })
        (generator prop)
        h
        len
        (length_digits header (length cs) s).0
      ≡ content_bytes header cs
unfolding contents length_digits write_digits
contents-bytes header_standard s h prop len out cs =
    ap (λ ds. content_header header_standard (length cs) ds) (take-all cs)
contents-bytes header_chunks s h prop len out cs =
    ap (λ ds. content_header header_chunks (length cs) ds) (take-all cs)
contents-bytes header_none s h prop len out cs =
    ap (λ ds. content_header header_none (length cs) ds) (take-all cs)

pub length-bytes :
    (nbits : ℕ) (header : ServiceHeader) (h : HttpConnection) (prop : Persistence)
    (out : CurrOutput) (cs : List ℕ)
    → length cs < 65000
    → segment_length nbits (record (holding out cs) { service_header = header }) (generator prop) h
      ≡ length (content_bytes header cs)
unfolding segment_length
length-bytes nbits header_standard h prop out cs l = omega arith
length-bytes nbits header_chunks h prop out cs l = omega (arith, length-append cs (13 ∷ 10 ∷ []))
length-bytes nbits header_none h prop out cs l = omega (arith, length-append cs (13 ∷ 10 ∷ []))
