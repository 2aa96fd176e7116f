-- ===== src/GpIp.antt =====
-- Handlers of other IP protocols than TCP: the hand-over of a packet in `smews_receive` of core/input.c and its
-- answer in `smews_send` of core/output.c. `dopacketin` and `dopacketout` are the functions of a handler: what the
-- first answers, and the characters that the second gives to `out_c`; they do not touch the connections.
pub mod Output
pub mod Exchange
mod Tests
use smews.Base.{
  ℕ, ◌+◌, ◌-◌, Bool, true, false, not, Option, none, some, List, [], ◌∷◌, ◌++◌, ltb, ◌==◌,
  if◌then◌else◌, u8, length,
}
use smews.Service.{Sizes}
use smews.Handlers.{OutputHandler, gpip_get_output_handler}
use smews.Connections.{Connection}
use smews.Connections.Ring.{put}
use smews.Connections.Store.{Store, add_connection, free_connection}
use smews.Send.Packet.{CurrOutput}
use smews.Send.Segment.{smews_send_packet}

abbrev pub set_conn : ℕ → Connection → Store → Store
set_conn p c s = record s { ring = record s.ring { conn = put s.ring.conn p c } }

abbrev pub has_packet : ℕ → Connection → Connection
has_packet packet_length c = record c { gpip = record c.gpip { payload_size = packet_length } }

abbrev pub wants_to_send : ℕ → Connection → Connection
wants_to_send want c = record c { gpip = record c.gpip { want_to_send = want } }

-- The packet is given to the handler of the new connection, which is freed unless it wants to answer.
unfoldable pub deliver : ℕ → Sizes → (Connection → ℕ) → ℕ → ℕ → Store → Option Store
unfolding free_connection
deliver fuel z dopacketin packet_length p s =
    let c = has_packet packet_length (s.ring.conn p) in
    let want = u8 (dopacketin c) in
    let s' = set_conn p (wants_to_send want c) s in
    if want == 0 then free_connection fuel z p s' else some s'

unfoldable pub receive_gpip :
    ℕ
    → Sizes
    → List OutputHandler
    → (OutputHandler → Connection → ℕ)
    → ℕ
    → ℕ
    → Connection
    → Store
    → Option Store
unfolding add_connection deliver gpip_get_output_handler
receive_gpip fuel z resources dopacketin protocol packet_length tmp s =
    elim (gpip_get_output_handler protocol resources) [
      | none ↦ some s
      | some h ↦
          elim (add_connection fuel z
            (record tmp { output_handler = some h; gpip = record tmp.gpip { protocol = protocol } })
            s) [
              | none ↦ none
              | some (none, s') ↦ some s'
              | some (some p, s') ↦ deliver fuel z (dopacketin h) packet_length p s'
            ]
    ]

-- `out_c` without a generator service: a full buffer takes nothing more
unfoldable pub out_c : ℕ → List ℕ → ℕ → List ℕ
out_c max_bytes buffer c = if length buffer == max_bytes then buffer else buffer ++ (c ∷ [])

unfoldable pub out_chars : ℕ → List ℕ → List ℕ → List ℕ
unfolding out_c
out_chars max_bytes buffer [] = buffer
out_chars max_bytes buffer (c ∷ cs) = out_chars max_bytes (out_c max_bytes buffer c) cs

-- DEV_MTU is `none` where the target has none
unfoldable pub gpip_max_bytes : ℕ → Option ℕ → ℕ
gpip_max_bytes size none = size
gpip_max_bytes size (some mtu) = if ltb mtu (size + 20) then mtu - 20 else size

abbrev pub gpip_output : ℕ → CurrOutput → List ℕ → CurrOutput
gpip_output max_bytes out cs =
    let buffer = out_chars max_bytes [] cs in
    record out { buffer = buffer; content_length = length buffer; max_bytes = max_bytes }

-- behind `smews_send_packet`
unfoldable pub close_sent :
    ℕ → Sizes → ℕ → Store → Option (List ℕ) × Connection → Option (Option (List ℕ) × Store)
close_sent fuel z p s (packet, c) = elim (free_connection fuel z p (set_conn p c s)) [
  | none ↦ none
  | some s' ↦ some (packet, s')
]

-- The packet, and the connections without the one that it was for. Its handler is `h`.
unfoldable pub send_gpip :
    ℕ
    → Sizes
    → ℕ
    → ℕ
    → Option ℕ
    → CurrOutput
    → (Connection → List ℕ)
    → OutputHandler
    → ℕ
    → Store
    → Option (Option (List ℕ) × Store)
unfolding close_sent
send_gpip fuel z now local_ip mtu out dopacketout h p s =
    let c = s.ring.conn p in
    close_sent fuel z p s (
      smews_send_packet 0 now local_ip
        (gpip_output (gpip_max_bytes z.output_buffer_size mtu) out (dopacketout c)) h
        (wants_to_send 0 c))
