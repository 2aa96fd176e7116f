-- ===== src/Icmp.antt =====
-- apps/icmpv4/icmpv4.c: the answer to an echo request. `in` is the next byte of the packet, and the bytes
-- that are given to `out_c` are a list; a packet of less than a header is not modelled, since what `in`
-- gives behind its end is the driver's.
pub mod Laws
mod Tests
use smews.Base.{
  ℕ, ◌+◌, ◌*◌, ◌/◌, ◌%◌, ◌^◌, Bool, true, false, Option, none, some, List, [], ◌∷◌, ltb, ◌==◌,
  if◌then◌else◌, length, u8, u16,
}
use smews.Checksum.{Sum, checksum_init, checksum_add, checksum_add16, checksum_end, word}

abbrev pub icmp_echo_request : ℕ
icmp_echo_request = 8

abbrev pub icmp_echo_reply : ℕ
icmp_echo_reply = 0

-- the variables of the application: `icmp_payload` up to `buffer_size`, and the fields of the header
pub record Echo : Type 0 where
  pub icmp_payload : List ℕ
  pub sequence_number : ℕ
  pub identifier : ℕ
  pub checksum : ℕ

abbrev pub join : ℕ → ℕ → ℕ
join high low = high * 2 ^ 8 + low

-- the loop over the data
unfoldable pub add_bytes : Sum → List ℕ → Sum
unfolding checksum_add
add_bytes s [] = s
add_bytes s (c ∷ cs) = add_bytes (checksum_add s c) cs

unfoldable pub request_sum : ℕ → ℕ → Echo → Sum
unfolding checksum_init checksum_add checksum_add16 add_bytes
request_sum kind code e =
    let s = checksum_add (checksum_add checksum_init kind) code in
    let s' =
      checksum_add16 (checksum_add16 (checksum_add16 s e.checksum) e.identifier)
        e.sequence_number in
    add_bytes s' e.icmp_payload

-- The answer of the handler, 1 to send a reply, and the variables, when they are set. `size` is OUTPUT_BUFFER_SIZE,
-- the length of `icmp_payload`: the source stores the data without a test, and the result is `none` where it would
-- write behind the array.
unfoldable pub icmp4_packet_in : ℕ → List ℕ → Option (ℕ × Option Echo)
unfolding request_sum checksum_end
icmp4_packet_in size (kind ∷ code ∷ c1 ∷ c0 ∷ i1 ∷ i0 ∷ s1 ∷ s0 ∷ data_bytes) =
    let e : Echo = record {
      icmp_payload = data_bytes;
      sequence_number = join s1 s0;
      identifier = join i1 i0;
      checksum = join c1 c0;
    } in
    if kind == icmp_echo_request
    then if ltb size (length data_bytes)
      then none
      else elim (checksum_end 4 (request_sum kind code e)) [
        | none ↦ none
        | some s ↦ some ((if word s == 0xffff then 1 else 0), some e)
      ]
    else some (0, none)
icmp4_packet_in size _ = none

-- the checksum of the request, with the type of a reply
unfoldable pub reply_checksum : ℕ → ℕ
reply_checksum c =
    let c' = u16 (c + icmp_echo_request * 2 ^ 8) in
    if ltb (c' / 2 ^ 8) icmp_echo_request then u16 (c' + 1) else c'

unfoldable pub icmp4_packet_out : Echo → List ℕ
unfolding reply_checksum
icmp4_packet_out e =
    let c = reply_checksum e.checksum in
    icmp_echo_reply
    ∷ 0
    ∷ u8 (c / 2 ^ 8)
    ∷ u8 c
    ∷ u8 (e.identifier / 2 ^ 8)
    ∷ u8 e.identifier
    ∷ u8 (e.sequence_number / 2 ^ 8)
    ∷ u8 e.sequence_number
    ∷ e.icmp_payload
