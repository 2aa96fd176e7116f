-- ===== src/Receive/Tcp.antt =====
-- What `smews_receive` of core/input.c does to its copy of the connection, `tmp_connection`, from the
-- TCP header of a segment: acknowledgement, sequence numbers and the state machine. The header is
-- given by its fields; the calls of the driver that read it are not modelled.
pub mod Laws
pub mod Reach
mod Tests
use smews.Base.{
  ℕ, ◌+◌, ◌-◌, ◌*◌, ◌/◌, ◌%◌, ◌^◌, bit_and, Bool, true, false, not, ◌&&◌, ◌||◌, Option, none, some,
  List, [], ◌∷◌, ltb, leb, ◌==◌, if◌then◌else◌, u16, u32, sub8, sub16, sub32, min,
}
use smews.Handlers.{OutputHandler, tcp_fin, tcp_syn, tcp_rst, ref_synack, ref_finack}
use smews.Connections.{
  Connection, HttpConnection, GpIpConnection, TcpState, tcp_listen, tcp_syn_rcvd, tcp_established,
  tcp_closing, tcp_last_ack, parsing_out, is_gpip, something_to_send,
}

-- the fields of the IP and TCP headers; `offset` and `flags` are the two bytes behind the
-- acknowledgement, and `mss` is the second half of the first option, when there is an option
pub record TcpHeader : Type 0 where
  pub source_ip : ℕ
  pub source_port : ℕ
  pub destination_port : ℕ
  pub inseqno : ℕ
  pub inack : ℕ
  pub offset : ℕ
  pub flags : ℕ
  pub window : ℕ
  pub mss : ℕ
  pub packet_length : ℕ

-- the work that waits for the checksum
pub record Deferred : Type 0 where
  pub clean_service : Bool
  pub free_handler : Bool
  pub free_args : Option ℕ
  pub free_args_size : ℕ

abbrev pub basic_seqno : ℕ
basic_seqno = 0x42b7a491

abbrev pub http_port : ℕ
http_port = 80

-- the loop that looks for the connection of a segment
unfoldable pub find_connection : ℕ → ℕ → List (ℕ × Connection) → Option (ℕ × Connection)
find_connection port ip [] = none
find_connection port ip ((p, c) ∷ cs) =
    let rest = find_connection port ip cs in
    if is_gpip c
    then rest
    else if (c.http.port == port) && (c.ip_addr == ip)
    then some (p, c)
    else rest

-- `tmp_connection` when no connection is found; `tmp` is the structure on the stack, with the
-- address and the port already in place.
unfoldable pub new_connection : ℕ → Connection → Connection
new_connection last_transmission_time tmp = record tmp {
  output_handler = none;
  http = record tmp.http {
    tcp_state = tcp_listen;
    next_outseqno = basic_seqno;
    current_inseqno = 0;
    parsing_state = parsing_out;
    inflight = 0;
    generator_service = none;
    ready_to_send = true;
    comet_send_ack = false;
    comet_passive = false;
    transmission_time = last_transmission_time;
  };
}

-- Only the low byte is compared.
unfoldable pub is_http_port : ℕ → Bool
is_http_port port = port % 2 ^ 8 == http_port

-- a duplicate acknowledgement goes back to the first byte in flight
unfoldable pub duplicate_ack : ℕ → HttpConnection → HttpConnection
duplicate_ack inack h =
    if sub32 h.next_outseqno h.inflight == inack then record h { next_outseqno = inack } else h

unfoldable pub ack_is_valid : ℕ → HttpConnection → Bool
ack_is_valid inack h = not (inack == 0) && leb inack h.next_outseqno

unfoldable pub ack_inflight : ℕ → HttpConnection → HttpConnection
unfolding ack_is_valid
ack_inflight inack h =
    if ack_is_valid inack h then record h { inflight = u16 (sub32 h.next_outseqno inack) } else h

abbrev pub is_some {ℓ} : {A : Type ℓ} → Option A → Bool
is_some none = false
is_some (some a) = true

-- the handler is dropped, but for streamed comet data, once all is sent and acknowledged
unfoldable pub clear_handler : OutputHandler → Connection → Deferred → Connection × Deferred
unfolding something_to_send
clear_handler handler c d =
    if (c.http.inflight == 0) && not (something_to_send c)
    then (
      (if c.http.comet_streaming then c else record c { output_handler = none }),
      (if is_some c.http.generator_service
          then record d {
            free_handler = true;
            free_args = c.http.args;
            free_args_size = handler.args_size;
          }
          else d),
    )
    else (c, d)

unfoldable pub clear_finished : Connection → Deferred → Connection × Deferred
unfolding clear_handler
clear_finished c d = elim c.output_handler [
  | none ↦ (c, d)
  | some handler ↦ clear_handler handler c d
]

abbrev pub nothing_deferred : Deferred
nothing_deferred = record {
  clean_service = false;
  free_handler = false;
  free_args = none;
  free_args_size = 0;
}

unfoldable pub acknowledge : ℕ → Connection → Connection × Deferred
unfolding duplicate_ack ack_inflight ack_is_valid clear_finished
acknowledge inack c =
    let h = duplicate_ack inack c.http in
    clear_finished (record c { http = ack_inflight inack h })
      (record nothing_deferred {
        clean_service = ack_is_valid inack h && is_some h.generator_service;
      })

-- lengths in bytes, as the two variables hold them
unfoldable pub tcp_header_length : TcpHeader → ℕ
tcp_header_length t = (t.offset / 2 ^ 4) * 4

unfoldable pub segment_length : TcpHeader → ℕ
unfolding tcp_header_length
segment_length t = sub16 t.packet_length (tcp_header_length t)

unfoldable pub current_inseqno : TcpHeader → ℕ
unfolding tcp_header_length segment_length
current_inseqno t =
    if ltb (tcp_header_length t) t.packet_length
    then u32 (t.inseqno + segment_length t)
    else t.inseqno

unfoldable pub has_flag : ℕ → ℕ → Bool
has_flag flags flag = not (bit_and flags flag == 0)

abbrev pub enter : TcpState → OutputHandler → Connection → Connection
enter state handler c = record c {
  output_handler = some handler;
  http = record c.http { tcp_state = state; current_inseqno = u32 (c.http.current_inseqno + 1) };
}

abbrev pub move : TcpState → Connection → Connection
move state c = record c { http = record c.http { tcp_state = state } }

-- `TCP state machine management`
unfoldable pub state_machine : TcpState → ℕ → Connection → Connection
unfolding has_flag
state_machine tcp_established flags c =
    if has_flag flags tcp_fin
    then enter tcp_last_ack ref_finack c
    else if has_flag flags tcp_rst
    then move tcp_listen c
    else c
state_machine tcp_listen flags c =
    if has_flag flags tcp_syn then enter tcp_syn_rcvd ref_synack c else c
state_machine tcp_syn_rcvd flags c =
    if c.http.inflight == 0
    then move tcp_established c
    else record c { output_handler = some ref_synack }
state_machine tcp_last_ack flags c = move tcp_listen c
state_machine tcp_closing flags c = c

-- a segment that is not older than what is received already
unfoldable pub advance_state : TcpHeader → Connection → Connection
unfolding current_inseqno state_machine
advance_state t c =
    if leb c.http.current_inseqno (current_inseqno t)
    then state_machine c.http.tcp_state t.flags
        (record c { http = record c.http { current_inseqno = current_inseqno t } })
    else c

-- `tcp_mss` is a field of 12 bits.
unfoldable pub negotiate_mss : ℕ → TcpHeader → HttpConnection → HttpConnection
unfolding tcp_header_length
negotiate_mss max_mss t h =
    if leb 4 (sub8 (tcp_header_length t) 20)
    then record h { tcp_mss = min t.mss max_mss % 2 ^ 12 }
    else h

-- From the acknowledgement to the end of the TCP header. `new_tcp_data` is compared before the state
-- machine runs.
unfoldable pub receive_tcp : ℕ → TcpHeader → Connection → Connection × Deferred × Bool
unfolding acknowledge current_inseqno advance_state negotiate_mss
receive_tcp max_mss t c =
    let (c', d) = acknowledge t.inack c in
    let c'' = advance_state t c' in
    (
      record c'' { http = negotiate_mss max_mss t (record c''.http { cwnd = t.window }) },
      d,
      ltb c'.http.current_inseqno (current_inseqno t),
    )
