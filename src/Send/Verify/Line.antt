-- ===== src/Send/Verify/Line.antt =====
-- What core/output.c adds to the sum for them: the sums of
-- the constant headers, the digits of the length, and the sum of the characters.
use smews.Base.{
  ℕ, suc, ◌+◌, ◌-◌, ◌*◌, ◌/◌, ◌%◌, ◌^◌, ◌≡◌, ◌<◌, refl, ap, arith, true, List, [], ◌∷◌, ◌++◌, map,
  length, ◌==◌, if◌then◌else◌, u16,
}
use smews.Checksum.{Sum}
use smews.Checksum.Ones.{Item, byte, pair, feed_all, amount_all, ones_sum}
use smews.Service.{ServiceHeader, header_none, header_standard, header_chunks}
use smews.Send.Packet.{
  CurrOutput, service_http_header, service_http_header_part2, service_http_header_chunked,
}
use smews.Send.Segment.{decimal_char, hex_char, length_digits, write_digits}
use smews.Send.Generate.Written.{IsBytes}

-- the digits from the last to the first
abbrev pub decimal_digits : ℕ → List ℕ
decimal_digits n =
    decimal_char (n % 10)
    ∷ decimal_char (n / 10 % 10)
    ∷ decimal_char (n / 10 / 10 % 10)
    ∷ decimal_char (n / 10 / 10 / 10 % 10)
    ∷ decimal_char (n / 10 / 10 / 10 / 10 % 10)
    ∷ decimal_char (n / 10 / 10 / 10 / 10 / 10 % 10)
    ∷ []

abbrev pub hex_digits : ℕ → List ℕ
hex_digits n =
    hex_char (n % 16)
    ∷ hex_char (n / 16 % 16)
    ∷ hex_char (n / 16 / 16 % 16)
    ∷ hex_char (n / 16 / 16 / 16 % 16)
    ∷ []

-- the characters of a line's end, the first of them at an odd place behind an odd number of characters
abbrev pub line_end : ℕ → ℕ
line_end n = if n % 2 == 0 then 0x0d0a else 0x0a0d

abbrev pub line_items : ℕ → List Item
line_items n =
    byte 0 ∷ (map byte (hex_digits n) ++ (byte 0 ∷ pair 0x0d0a ∷ pair (u16 (line_end n)) ∷ []))

-- what is added for the header and the end of line behind the characters
abbrev pub header_items : ServiceHeader → ℕ → List Item
header_items header_standard n =
    pair 0x1871 ∷ byte 0 ∷ (map byte (decimal_digits n) ++ (byte 0 ∷ []))
header_items header_chunks n = pair 0x2876 ∷ line_items n
header_items header_none n = line_items n

abbrev pub content_items : CurrOutput → List Item
content_items out = pair (u16 out.checksum) ∷ header_items out.service_header out.content_length

pub length_digits-feed :
    (header : ServiceHeader) (n : ℕ) (s : Sum)
    → (length_digits header n s).1 ≡ feed_all s (header_items header n)
unfolding length_digits write_digits
length_digits-feed header_standard n s = refl
length_digits-feed header_chunks n s = refl
length_digits-feed header_none n s = refl

pub line_end-suc : (n : ℕ) → line_end (suc (suc n)) ≡ line_end n
line_end-suc n = ap (λ k. if k == 0 then 0x0d0a else 0x0a0d) (omega arith)

pub amount-line_end :
    (cs : List ℕ)
    → amount_all true (map byte (cs ++ (13 ∷ 10 ∷ [])))
      ≡ amount_all true (map byte cs) + u16 (line_end (length cs))
amount-line_end [] = refl
amount-line_end (c ∷ []) = omega arith
amount-line_end (c ∷ d ∷ cs) = omega (arith, amount-line_end cs, line_end-suc (length cs))

-- the sum of the characters, as a word and less a multiple of 65535
abbrev pub over : List ℕ → ℕ
over cs = (amount_all true (map byte cs) - 1) / 65535

pub over-word :
    (cs : List ℕ)
    → amount_all true (map byte cs)
      ≡ u16 (ones_sum (amount_all true (map byte cs))) + over cs * 65535
over-word cs = ground arith

pub IsBytes-digits : (n : ℕ) → IsBytes (decimal_digits n)
IsBytes-digits n = omega arith

pub hex_char-byte : (d : ℕ) → d < 16 → hex_char d < 2 ^ 8
hex_char-byte d l = ground arith

-- the digits from the first to the last
abbrev pub decimal_line : ℕ → List ℕ
decimal_line n =
    decimal_char (n / 10 / 10 / 10 / 10 / 10 % 10)
    ∷ decimal_char (n / 10 / 10 / 10 / 10 % 10)
    ∷ decimal_char (n / 10 / 10 / 10 % 10)
    ∷ decimal_char (n / 10 / 10 % 10)
    ∷ decimal_char (n / 10 % 10)
    ∷ decimal_char (n % 10)
    ∷ []

abbrev pub hex_line : ℕ → List ℕ
hex_line n =
    hex_char (n / 16 / 16 / 16 % 16)
    ∷ hex_char (n / 16 / 16 % 16)
    ∷ hex_char (n / 16 % 16)
    ∷ hex_char (n % 16)
    ∷ []

-- the bytes of the contents, with a length
abbrev pub content_header : ServiceHeader → ℕ → List ℕ → List ℕ
content_header header_standard n cs =
    service_http_header ++ (decimal_line n ++ (service_http_header_part2 ++ cs))
content_header header_chunks n cs =
    service_http_header_chunked ++ (hex_line n ++ (13 ∷ 10 ∷ (cs ++ (13 ∷ 10 ∷ []))))
content_header header_none n cs = hex_line n ++ (13 ∷ 10 ∷ (cs ++ (13 ∷ 10 ∷ [])))

abbrev pub content_bytes : ServiceHeader → List ℕ → List ℕ
content_bytes header cs = content_header header (length cs) cs

pub amount-standard :
    (cs : List ℕ)
    → amount_all true (map byte (content_bytes header_standard cs))
      ≡ u16 (ones_sum (amount_all true (map byte cs)))
        + amount_all true (header_items header_standard (length cs))
        + (9 + over cs) * 65535
amount-standard cs = omega (arith, over-word cs)

pub amount-chunks :
    (cs : List ℕ)
    → amount_all true (map byte (content_bytes header_chunks cs))
      ≡ u16 (ones_sum (amount_all true (map byte cs)))
        + amount_all true (header_items header_chunks (length cs))
        + (11 + over cs) * 65535
amount-chunks cs = omega (arith, over-word cs, amount-line_end cs)

pub amount-none :
    (cs : List ℕ)
    → amount_all true (map byte (content_bytes header_none cs))
      ≡ u16 (ones_sum (amount_all true (map byte cs)))
        + amount_all true (header_items header_none (length cs))
        + over cs * 65535
amount-none cs = omega (arith, over-word cs, amount-line_end cs)
