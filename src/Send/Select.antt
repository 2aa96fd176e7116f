-- ===== src/Send/Select.antt =====
-- How `smews_send` of core/output.c picks what it sends next, with coroutines: the reset first, then
-- the connections in turn.
pub mod Laws
mod Tests
use smews.Base.{
  ℕ, ◌+◌, Bool, true, false, not, Option, none, some, List, [], ◌∷◌, leb, ◌==◌, if◌then◌else◌,
}
use smews.Handlers.{OutputHandler, ref_ack}
use smews.Connections.{Connection, HttpConnection, something_to_send, is_gpip}
use smews.Connections.Ring.{Ring}
use smews.Connections.Ring.Walk.{search, round_robin}

unfoldable pub window_allows : HttpConnection → Bool
window_allows h = leb (h.inflight + h.tcp_mss) h.cwnd

unfoldable pub able_to_send : Connection → Bool
unfolding window_allows something_to_send is_gpip
able_to_send c =
    if not (something_to_send c)
    then false
    else if is_gpip c
    then true
    else if c.http.comet_passive
    then false
    else window_allows c.http

-- what `smews_send` is about to do
pub data Choice : Type 0 where
  send_reset : Choice
  nothing_able : Choice
  -- the connection of this address
  serve : ℕ → Choice

-- The choice, and the ring with the connection behind the chosen one in front; `none` is a search
-- that runs out of fuel.
unfoldable pub choose : ℕ → ℕ → Ring → Option (Choice × Ring)
unfolding search round_robin able_to_send
choose fuel rst_port s =
    if not (rst_port == 0) then some (send_reset, s) else elim (search fuel able_to_send s) [
      | none ↦ none
      | some none ↦ some (nothing_able, s)
      | some (some p) ↦ some (serve p, round_robin p s)
    ]

-- A request that is not complete, or a comet request that is only acknowledged, is answered by an
-- acknowledgement in place of its handler, which is kept aside.
unfoldable pub acknowledge_only : Connection → Option OutputHandler × Connection
acknowledge_only c =
    if not c.http.ready_to_send
    then (c.output_handler, record c { output_handler = some ref_ack })
    else if c.http.comet_send_ack
    then (c.output_handler, record c { output_handler = some ref_ack })
    else (none, c)

-- What is put back behind a control packet. The call of `initget` and the branch of tcp_closing, which
-- frees the connection, are left out.
unfoldable pub restore_handler : Option OutputHandler → Connection → Connection
restore_handler none c = record c { output_handler = none }
restore_handler (some old) c =
    if not c.http.ready_to_send then record c { output_handler = some old } else record c {
      output_handler = some old;
      http = record c.http { comet_send_ack = false; final_outseqno = c.http.next_outseqno };
    }
