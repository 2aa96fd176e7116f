-- ===== src/Retransmit.antt =====
-- `smews_retransmit` of core/smews.c: segments that wait too long for their acknowledgement. The
-- connections are listed in the order of the ring.
pub mod Laws
mod Tests
use smews.Base.{
  ℕ, ◌+◌, ◌-◌, ◌%◌, ◌^◌, Bool, true, false, not, ◌&&◌, Option, none, some, List, [], ◌∷◌, map, ltb,
  ◌==◌, if◌then◌else◌, u8, sub32,
}
use smews.Connections.{Connection, HttpConnection, is_gpip}
use smews.Receive.Tcp.{is_some}

-- `last_transmission_time - transmission_time > 4`, where both are of 8 bits and the difference is
-- an int.
unfoldable pub is_late : ℕ → HttpConnection → Bool
is_late now h = ltb (h.transmission_time + 4) now

abbrev pub rewind : HttpConnection → HttpConnection
rewind h = record h { next_outseqno = sub32 h.next_outseqno h.inflight; inflight = 0 }

unfoldable pub retransmit : ℕ → Connection → Connection
unfolding is_late
retransmit now c =
    if is_some c.output_handler && not (is_gpip c) && is_late now c.http && ltb 0 c.http.inflight
    then record c { http = rewind c.http }
    else c

-- the clock and the connections
unfoldable pub smews_retransmit : ℕ → List Connection → ℕ × List Connection
unfolding retransmit
smews_retransmit last_transmission_time cs =
    let now = u8 (last_transmission_time + 1) in (now, map (retransmit now) cs)
