-- ===== src/Send/Packet.antt =====
-- `smews_send_packet` of core/output.c for IPv4: the bytes of one packet, in the order in which the
-- driver gets them, and what the packet changes in its connection. `nbits` is CHUNCKS_NBITS, which the
-- build sets. Addresses and sequence numbers are sent from their most significant byte.
pub mod Header
use smews.Base.{
  ℕ, zero, suc, ◌+◌, ◌-◌, ◌*◌, ◌/◌, ◌%◌, ◌^◌, bit_and, bit_or, Bool, true, false, not, ◌&&◌, ◌||◌,
  Option, none, some, List, [], ◌∷◌, ◌++◌, ltb, leb, ◌==◌, if◌then◌else◌, u8, u16, u32, sub16,
  sub32, length, take, drop,
}
use smews.Checksum.{
  Sum, checksum_init, checksum_add, checksum_add16, checksum_add32, checksum_end, word,
}
use smews.Handlers.{
  OutputHandler, HandlerData, control, file, generator, general_ip, get_flags, ref_rst, tcp_syn,
  is_gpip_data,
}
use smews.Service.{ServiceHeader, header_none, header_standard, header_chunks}
use smews.Connections.{Connection, HttpConnection, handler_is_gpip}

-- `struct curr_output_t`, without the service
pub record CurrOutput : Type 0 where
  pub buffer : List ℕ
  pub checksum : ℕ
  pub content_length : ℕ
  pub max_bytes : ℕ
  pub service_header : ServiceHeader

-- "HTTP/1.1 200 OK", then "Content-Length:"
abbrev pub service_http_header : List ℕ
service_http_header =
    72 ∷ 84 ∷ 84 ∷ 80 ∷ 47 ∷ 49 ∷ 46 ∷ 49 ∷ 32 ∷ 50 ∷ 48 ∷ 48 ∷ 32 ∷ 79 ∷ 75 ∷ 13 ∷ 10 ∷ 67 ∷ 111
    ∷ 110 ∷ 116 ∷ 101 ∷ 110 ∷ 116 ∷ 45 ∷ 76 ∷ 101 ∷ 110 ∷ 103 ∷ 116 ∷ 104 ∷ 58 ∷ []

-- "Content-Type: text/plain" between line ends
abbrev pub service_http_header_part2 : List ℕ
service_http_header_part2 =
    13 ∷ 10 ∷ 67 ∷ 111 ∷ 110 ∷ 116 ∷ 101 ∷ 110 ∷ 116 ∷ 45 ∷ 84 ∷ 121 ∷ 112 ∷ 101 ∷ 58 ∷ 32 ∷ 116
    ∷ 101 ∷ 120 ∷ 116 ∷ 47 ∷ 112 ∷ 108 ∷ 97 ∷ 105 ∷ 110 ∷ 13 ∷ 10 ∷ 13 ∷ 10 ∷ []

-- "HTTP/1.1 200 OK", "Content-Type: text/plain", "Transfer-Encoding:chunked"
abbrev pub service_http_header_chunked : List ℕ
service_http_header_chunked =
    72 ∷ 84 ∷ 84 ∷ 80 ∷ 47 ∷ 49 ∷ 46 ∷ 49 ∷ 32 ∷ 50 ∷ 48 ∷ 48 ∷ 32 ∷ 79 ∷ 75 ∷ 13 ∷ 10 ∷ 67 ∷ 111
    ∷ 110 ∷ 116 ∷ 101 ∷ 110 ∷ 116 ∷ 45 ∷ 84 ∷ 121 ∷ 112 ∷ 101 ∷ 58 ∷ 32 ∷ 116 ∷ 101 ∷ 120 ∷ 116 ∷ 47
    ∷ 112 ∷ 108 ∷ 97 ∷ 105 ∷ 110 ∷ 13 ∷ 10 ∷ 84 ∷ 114 ∷ 97 ∷ 110 ∷ 115 ∷ 102 ∷ 101 ∷ 114 ∷ 45 ∷ 69
    ∷ 110 ∷ 99 ∷ 111 ∷ 100 ∷ 105 ∷ 110 ∷ 103 ∷ 58 ∷ 99 ∷ 104 ∷ 117 ∷ 110 ∷ 107 ∷ 101 ∷ 100 ∷ 13 ∷ 10
    ∷ 13 ∷ 10 ∷ []

abbrev pub content_length_size : ℕ
content_length_size = 6

abbrev pub chunk_length_size : ℕ
chunk_length_size = 4

unfoldable pub service_headers_size : ServiceHeader → ℕ
service_headers_size header_standard =
    u8 (length service_http_header + length service_http_header_part2 + content_length_size)
service_headers_size header_chunks =
    u8 (length service_http_header_chunked + (chunk_length_size + 4))
service_headers_size header_none = u8 (chunk_length_size + 4)

-- the macro MAX_OUT_SIZE
unfoldable pub max_out_size : ℕ → ℕ → ℕ
max_out_size nbits mss = mss - mss % 2 ^ nbits

unfoldable pub file_remaining_bytes : HttpConnection → ℕ
file_remaining_bytes h = sub32 h.final_outseqno h.next_outseqno

-- the length of the TCP segment, or for another IP protocol that of the payload less a TCP header
unfoldable pub segment_length : ℕ → CurrOutput → HandlerData → HttpConnection → ℕ
unfolding service_headers_size max_out_size file_remaining_bytes
segment_length nbits out (control len flags) h = u16 len
segment_length nbits out (file len chk contents) h =
    if ltb (max_out_size nbits h.tcp_mss) (file_remaining_bytes h)
    then u16 (max_out_size nbits h.tcp_mss)
    else u16 (file_remaining_bytes h)
segment_length nbits out (generator prop) h =
    u16 (out.content_length + service_headers_size out.service_header)
segment_length nbits out (general_ip protocol) h = sub16 out.content_length 20

-- `dev_put16_val` and `dev_put32`
abbrev pub put16 : ℕ → List ℕ
put16 w = u8 (w / 2 ^ 8) ∷ u8 w ∷ []

abbrev pub put32 : ℕ → List ℕ
put32 w = u8 (w / 2 ^ 24) ∷ u8 (w / 2 ^ 16) ∷ u8 (w / 2 ^ 8) ∷ u8 w ∷ []

abbrev pub add32 : Sum → ℕ → Sum
add32 s w = checksum_add32 s (u8 (w / 2 ^ 24)) (u8 (w / 2 ^ 16)) (u8 (w / 2 ^ 8)) (u8 w)

abbrev pub add16 : Sum → ℕ → Sum
add16 s w = checksum_add16 s (u16 w)

-- `UI16(current_checksum) = w`
abbrev pub set_word : ℕ → Sum → Sum
set_word w s = record s { high = w / 2 ^ 8; low = w % 2 ^ 8 }

abbrev pub basic_ip_chk : ℕ
basic_ip_chk = 0x8506

-- The partial sum of a header: with the protocol of the handler, or with TCP, summed up in advance.
unfoldable pub ip_sum : Option ℕ → Sum
unfolding checksum_init checksum_add16
ip_sum none = set_word basic_ip_chk checksum_init
ip_sum (some protocol) =
    let s = add16 (add16 (add16 checksum_init 0x4500) 0x0000) 0x0000 in
    add16 s (bit_or 0xff00 protocol)

unfoldable pub ip_header_sum : Option ℕ → ℕ → ℕ → ℕ → Sum
unfolding ip_sum checksum_add32
ip_header_sum gpip total_length local_ip ip =
    add32 (add16 (add32 (ip_sum gpip) local_ip) total_length) ip

abbrev pub ttl_protocol : Option ℕ → ℕ
ttl_protocol none = 0x4006
ttl_protocol (some protocol) = bit_or 0xff00 protocol

-- the IP header, once its sum is known
abbrev pub ip_bytes : Option ℕ → ℕ → ℕ → ℕ → ℕ → List ℕ
ip_bytes gpip total_length local_ip ip sum =
    put16 0x4500
    ++ put16 total_length
    ++ put16 0x0000
    ++ put16 0x0000
    ++ put16 (ttl_protocol gpip)
    ++ put16 (0xffff - sum)
    ++ put32 local_ip
    ++ put32 ip

unfoldable pub ip_header : Option ℕ → ℕ → ℕ → ℕ → Option (List ℕ)
unfolding ip_header_sum checksum_end
ip_header gpip total_length local_ip ip =
    elim (checksum_end 4 (ip_header_sum gpip total_length local_ip ip)) [
      | none ↦ none
      | some s ↦ some (ip_bytes gpip total_length local_ip ip (word s))
    ]
