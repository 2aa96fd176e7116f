-- ===== src/Connections.antt =====
-- core/connections.h and core/connections.c, built for IPv4 with the handlers of other IP protocols,
-- comet, arguments and timers, and without POST. The bytes of a sequence number, a port or an address
-- are the number that `UI16` or `UI32` reads. The two members of `union protocol` are kept apart.
pub mod Ring
pub mod Store
pub mod Samples
use smews.Base.{
  ℕ, zero, suc, ◌+◌, Bool, true, false, not, ◌&&◌, ◌||◌, Option, none, some, List, [], ◌∷◌, ◌==◌,
  if◌then◌else◌,
}
use smews.Handlers.{OutputHandler, HandlerData, is_gpip_handler, is_gpip_data, is_control_data}

-- `enum tcp_state_e`
pub data TcpState : Type 0 where
  tcp_listen tcp_syn_rcvd tcp_established tcp_closing tcp_last_ack : TcpState

-- `enum parsing_state_e`, without the states of POST
pub data ParsingState : Type 0 where
  parsing_out parsing_cmd parsing_url parsing_end : ParsingState

-- `struct http_connection`; `generator_service` and `args` are addresses in the allocator's buffer,
-- `none` for NULL, and `blob` is what is left of the tree that is walked.
pub record HttpConnection : Type 0 where
  pub tcp_mss : ℕ
  pub ready_to_send : Bool
  pub tcp_state : TcpState
  pub next_outseqno : ℕ
  pub final_outseqno : ℕ
  pub current_inseqno : ℕ
  pub port : ℕ
  pub cwnd : ℕ
  pub inflight : ℕ
  pub blob : List ℕ
  pub generator_service : Option ℕ
  pub args : Option ℕ
  pub curr_arg : ℕ
  pub arg_ref_index : ℕ
  pub transmission_time : ℕ
  pub parsing_state : ParsingState
  pub comet_passive : Bool
  pub comet_send_ack : Bool
  pub comet_streaming : Bool

-- `struct gp_ip_connection`
pub record GpIpConnection : Type 0 where
  pub payload_size : ℕ
  pub protocol : ℕ
  pub want_to_send : ℕ

-- `struct connection`, without its links
pub record Connection : Type 0 where
  pub ip_addr : ℕ
  pub output_handler : Option OutputHandler
  pub gpip : GpIpConnection
  pub http : HttpConnection

-- the macros IS_GPIP and IS_HTTP, at a connection that is not NULL
unfoldable pub handler_is_gpip : Option OutputHandler → Bool
unfolding is_gpip_handler
handler_is_gpip none = false
handler_is_gpip (some h) = is_gpip_handler h

unfoldable pub is_gpip : Connection → Bool
unfolding handler_is_gpip
is_gpip c = handler_is_gpip c.output_handler

abbrev pub is_established : TcpState → Bool
is_established tcp_established = true
is_established _ = false

-- The rest of `something_to_send`, at the handler of a connection of HTTP.
unfoldable pub http_to_send : Option OutputHandler → HttpConnection → Bool
unfolding is_control_data
http_to_send none h = false
http_to_send (some handler) h =
    if is_control_data handler.handler_data || h.comet_send_ack
    then true
    else is_established h.tcp_state && not (h.next_outseqno == h.final_outseqno)

unfoldable pub something_to_send : Connection → Bool
unfolding is_gpip http_to_send
something_to_send c =
    if is_gpip c then not (c.gpip.want_to_send == 0) else http_to_send c.output_handler c.http

unfoldable pub get_payload_size : Connection → ℕ
unfolding is_gpip
get_payload_size c = if not (is_gpip c) then 0 else c.gpip.payload_size

unfoldable pub get_protocol : Connection → ℕ
unfolding is_gpip
get_protocol c = if not (is_gpip c) then 0 else c.gpip.protocol

unfoldable pub get_send_code : Connection → ℕ
unfolding is_gpip
get_send_code c = if not (is_gpip c) then 0 else c.gpip.want_to_send
