-- ===== src/Send/Segment.antt =====
-- The part of `smews_send_packet` behind the header of IP: the TCP header with its checksum, the
-- contents, and the update of the connection.
pub mod Update
mod Tests
use smews.Base.{
  ℕ, zero, suc, ◌+◌, ◌-◌, ◌*◌, ◌/◌, ◌%◌, ◌^◌, bit_and, bit_or, Bool, true, false, not, ◌&&◌, ◌||◌,
  Option, none, some, List, [], ◌∷◌, ◌++◌, ltb, leb, ◌==◌, if◌then◌else◌, u8, u16, u32, sub16,
  sub32, length, take, drop,
}
use smews.Checksum.{
  Sum, checksum_init, checksum_add, checksum_add16, checksum_add32, checksum_end, word,
}
use smews.Handlers.{
  OutputHandler, HandlerData, control, file, generator, general_ip, get_flags, ref_rst, tcp_syn,
  is_gpip_data,
}
use smews.Service.{ServiceHeader, header_none, header_standard, header_chunks}
use smews.Connections.{Connection, HttpConnection, is_gpip}
use smews.Receive.Tcp.{has_flag}
use smews.Send.Packet.{
  CurrOutput, service_http_header, service_http_header_part2, service_http_header_chunked,
  content_length_size, chunk_length_size, segment_length, file_remaining_bytes, put16, put32, add32,
  add16, set_word, ip_header,
}

abbrev pub decimal_char : ℕ → ℕ
decimal_char d = d + 48

-- digits above 9 are letters
abbrev pub hex_char : ℕ → ℕ
hex_char d = if ltb 57 (d + 48) then u8 (d + 48 + 39) else d + 48

-- the loops that write a length from its last digit and add each character to the checksum
unfoldable pub write_digits : ℕ → (ℕ → ℕ) → ℕ → ℕ → Sum → List ℕ → List ℕ × Sum
unfolding checksum_add
write_digits base char zero n s buffer = (buffer, s)
write_digits base char (suc k) n s buffer =
    write_digits base char k (n / base) (checksum_add s (char (n % base)))
      (char (n % base) ∷ buffer)

-- The characters of the length of the contents, and the sum with the header of HTTP in it.
unfoldable pub length_digits : ServiceHeader → ℕ → Sum → List ℕ × Sum
unfolding write_digits checksum_add checksum_add16
length_digits header_standard n s =
    let (buffer, s') =
      write_digits 10 decimal_char content_length_size n (checksum_add (add16 s 0x1871) 0) [] in
    (buffer, checksum_add s' 0)
length_digits header n s =
    let s' : Sum = elim header [ header_chunks ↦ add16 s 0x2876 | _ ↦ s ] in
    let (buffer, t) = write_digits 16 hex_char chunk_length_size n (checksum_add s' 0) [] in
    let t' = add16 (checksum_add t 0) 0x0d0a in
    (buffer, add16 t' (if n % 2 == 0 then 0x0d0a else 0x0a0d))

unfoldable pub sum_words : List ℕ → ℕ
sum_words [] = 0
sum_words (w ∷ ws) = w + sum_words ws

-- the partial checksums of the blocks of a file that are sent
unfoldable pub file_sum : ℕ → ℕ → ℕ → List ℕ → ℕ
unfolding sum_words
file_sum nbits index len chk =
    let blocks = len / 2 ^ nbits + (if len % 2 ^ nbits == 0 then 0 else 1) in
    u32 (sum_words (take blocks (drop (index / 2 ^ nbits) chk)))

-- what is sent in place of a connection
pub record Target : Type 0 where
  pub ip_addr : ℕ
  pub port : ℕ
  pub next_outseqno : ℕ
  pub current_inseqno : ℕ

abbrev pub mss_opt : ℕ
mss_opt = 0x0204

abbrev pub offset_byte : HandlerData → ℕ
offset_byte d = if has_flag (get_flags d) tcp_syn then 0x60 else 0x50

unfoldable pub tcp_header_sum : ℕ → Target → HandlerData → ℕ → Sum
unfolding checksum_init checksum_add checksum_add16 checksum_add32 get_flags has_flag
tcp_header_sum local_ip t d len =
    let s = add16 (add32 (set_word 0x1056 checksum_init) local_ip) (len + 20) in
    let s' = checksum_add (checksum_add (add32 s t.next_outseqno) (offset_byte d)) (get_flags d) in
    add32 (add16 (add32 s' t.ip_addr) t.port) t.current_inseqno

-- The sum with the contents, and the characters of the length of a generator's contents.
unfoldable pub contents_sum : ℕ → CurrOutput → HandlerData → HttpConnection → ℕ → Sum → List ℕ × Sum
unfolding length_digits checksum_add16 checksum_add32 get_flags has_flag file_sum
    file_remaining_bytes
contents_sum nbits out (generator prop) h len s =
    length_digits out.service_header out.content_length (add16 s out.checksum)
contents_sum nbits out (control l flags) h len s =
    ([], (if has_flag flags tcp_syn then add16 (add16 s mss_opt) h.tcp_mss else s))
contents_sum nbits out (file l chk contents) h len s =
    ([], add32 s (file_sum nbits (sub32 l (file_remaining_bytes h)) len chk))
contents_sum nbits out (general_ip protocol) h len s = ([], s)

abbrev pub tcp_bytes : Target → HandlerData → ℕ → List ℕ
tcp_bytes t d sum =
    put16 0x0050
    ++ put16 t.port
    ++ put32 t.next_outseqno
    ++ put32 t.current_inseqno
    ++ (offset_byte d ∷ get_flags d ∷ [])
    ++ put16 0x1000
    ++ put16 (0xffff - sum)
    ++ put16 0x0000

-- what is sent behind the header of TCP
unfoldable pub contents : CurrOutput → HandlerData → HttpConnection → ℕ → List ℕ → List ℕ
unfolding get_flags has_flag file_remaining_bytes
contents out (generator prop) h len buffer =
    let body = take out.content_length out.buffer in
    elim out.service_header [
      | header_standard ↦ service_http_header ++ (buffer ++ (service_http_header_part2 ++ body))
      | header_chunks ↦
          service_http_header_chunked ++ (buffer ++ (put16 0x0d0a ++ (body ++ put16 0x0d0a)))
      | header_none ↦ buffer ++ (put16 0x0d0a ++ (body ++ put16 0x0d0a))
    ]
contents out (control l flags) h len buffer =
    if has_flag flags tcp_syn then put16 mss_opt ++ put16 h.tcp_mss else []
contents out (file l chk bytes) h len buffer =
    take len (drop (sub32 l (file_remaining_bytes h)) bytes)
contents out (general_ip protocol) h len buffer = []

-- `update next sequence number and inflight segments`
abbrev pub sets_final : CurrOutput → HandlerData → Bool
sets_final out (generator prop) = elim out.service_header [
  | header_standard ↦ true
  | _ ↦ out.content_length == 0
]
sets_final out _ = false

unfoldable pub advance : ℕ → HttpConnection → HttpConnection
advance len h = record h {
  next_outseqno = u32 (h.next_outseqno + len);
  inflight = u16 (h.inflight + len);
}

abbrev pub set_final : Bool → HttpConnection → HttpConnection
set_final b h = if b then record h { final_outseqno = h.next_outseqno } else h

unfoldable pub update : CurrOutput → HandlerData → ℕ → HttpConnection → HttpConnection
unfolding get_flags has_flag advance
update out d len h =
    if has_flag (get_flags d) tcp_syn
    then record h { next_outseqno = u32 (h.next_outseqno + 1) }
    else set_final (sets_final out d) (advance len h)

-- The packet for a connection of HTTP, or, with the target of `rst_connection`, the reset.
unfoldable pub tcp_packet :
    ℕ → ℕ → CurrOutput → Target → HandlerData → HttpConnection → Option (List ℕ)
unfolding segment_length ip_header tcp_header_sum contents_sum checksum_end contents
tcp_packet nbits local_ip out t d h =
    let len = segment_length nbits out d h in
    let (buffer, s) = contents_sum nbits out d h len (tcp_header_sum local_ip t d len) in
    elim (ip_header none (len + 40) local_ip t.ip_addr) [
      | none ↦ none
      | some ip ↦ elim (checksum_end 4 s) [
        | none ↦ none
        | some r ↦ some (ip ++ (tcp_bytes t d (word r) ++ contents out d h len buffer))
      ]
    ]

-- The packet of another IP protocol: the header and the generated payload.
unfoldable pub gpip_packet : ℕ → CurrOutput → Connection → HandlerData → Option (List ℕ)
unfolding segment_length ip_header
gpip_packet local_ip out c d =
    elim (ip_header (some c.gpip.protocol) (segment_length 0 out d c.http + 40) local_ip
      c.ip_addr) [ none ↦ none | some ip ↦ some (ip ++ take out.content_length out.buffer) ]

-- `smews_send_packet` for a connection with a handler: the bytes, and the connection afterwards
unfoldable pub smews_send_packet :
    ℕ → ℕ → ℕ → CurrOutput → OutputHandler → Connection → Option (List ℕ) × Connection
unfolding tcp_packet gpip_packet update segment_length is_gpip_data
smews_send_packet nbits now local_ip out handler c =
    let d = handler.handler_data in
    let h = record c.http { transmission_time = now } in
    let t : Target = record {
      ip_addr = c.ip_addr;
      port = h.port;
      next_outseqno = h.next_outseqno;
      current_inseqno = h.current_inseqno;
    } in
    if is_gpip_data d then (gpip_packet local_ip out c d, record c { http = h }) else (
      tcp_packet nbits local_ip out t d h,
      record c { http = update out d (segment_length nbits out d h) h },
    )
