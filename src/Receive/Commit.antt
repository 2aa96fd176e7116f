-- ===== src/Receive/Commit.antt =====
-- The end of `smews_receive` of core/input.c, once the segment is read: the acknowledgement of data, and,
-- when the checksum is right, what was deferred and the update of the connections. `stack_of` gives
-- the stack of the coroutine of a generator service, as an address in the allocator and a size.
pub mod Laws
mod Tests
use smews.Base.{
  ℕ, suc, ◌+◌, ◌-◌, Bool, true, false, not, ◌&&◌, ◌||◌, Option, none, some, List, [], ◌∷◌, ltb,
  ◌==◌, if◌then◌else◌,
}
use smews.Memory.{Allocator, mem_free}
use smews.Service.{Sizes, GeneratorService, release, clean_service}
use smews.Handlers.{OutputHandler, ref_ack}
use smews.Connections.{
  Connection, HttpConnection, TcpState, tcp_listen, tcp_syn_rcvd, tcp_established, tcp_closing,
  tcp_last_ack, is_established,
}
use smews.Connections.Ring.{Ring, put}
use smews.Connections.Store.{Store, add_connection, free_connection}
use smews.Receive.Tcp.{Deferred}

-- `struct http_rst_connection`
pub record RstConnection : Type 0 where
  pub ip_addr : ℕ
  pub current_inseqno : ℕ
  pub next_outseqno : ℕ
  pub port : ℕ

-- Data of an established connection without a handler is acknowledged.
unfoldable pub acknowledge_data : ℕ → Connection → Connection
acknowledge_data segment_length c = elim c.output_handler [
  | none ↦
      if is_established c.http.tcp_state && not (segment_length == 0)
      then record c { output_handler = some ref_ack }
      else c
  | some handler ↦ c
]

-- the handler, the service and the arguments of a request that is acknowledged completely
unfoldable pub free_handler : ℕ → Sizes → (ℕ → Option ℕ × ℕ) → Deferred → ℕ → Store → Option Store
unfolding release
free_handler fuel z stack_of d a s =
    elim (release fuel
      (stack_of a ∷ (some a, z.service_size) ∷ (d.free_args, d.free_args_size) ∷ []) s.heap) [
        | none ↦ none
        | some heap ↦ some (record s { heap = heap })
      ]

abbrev pub forget_service : Connection → Connection
forget_service c = record c { http = record c.http { generator_service = none } }

-- The service of the connection, cleaned up to the acknowledgement.
unfoldable pub run_deferred :
    ℕ → Sizes → (ℕ → Option ℕ × ℕ) → Deferred → ℕ → Connection → Store → Option (Connection × Store)
unfolding free_handler clean_service
run_deferred fuel z stack_of d inack c s =
    if not d.clean_service then some (c, s) else elim c.http.generator_service [
      | none ↦ some (c, s)
      | some a ↦ elim (clean_service fuel z (s.services a) (some inack) s.heap) [
        | none ↦ none
        | some (service, heap) ↦
            (let cleaned : Store = record s { heap = heap; services = put s.services a service } in
              elim (free_handler fuel z stack_of d a cleaned) [
                | none ↦ if d.free_handler then none else some (c, cleaned)
                | some s' ↦
                    if d.free_handler then some (forget_service c, s') else some (c, cleaned)
              ])
      ]
    ]

abbrev pub is_listen : TcpState → Bool
is_listen tcp_listen = true
is_listen _ = false

abbrev pub is_syn_rcvd : TcpState → Bool
is_syn_rcvd tcp_syn_rcvd = true
is_syn_rcvd _ = false

-- `tmp_connection`, with the links of `struct connection`
pub record TmpConnection : Type 0 where
  pub connection : Connection
  pub next : ℕ
  pub prev : ℕ

-- the links of `tmp_connection` from the connection that was added
abbrev pub linked :
    TmpConnection → Option (Option ℕ × Store) → Option (Option ℕ × TmpConnection × Store)
linked tmp none = none
linked tmp (some (none, s)) = some (none, tmp, s)
linked tmp (some (some p, s)) =
    some (some p, record tmp { prev = s.ring.prev p; next = s.ring.next p }, s)

-- A new connection is added when its first segment is a SYN, and `tmp_connection` gets its links.
unfoldable pub find_or_add :
    ℕ → Sizes → Option ℕ → TmpConnection → Store → Option (Option ℕ × TmpConnection × Store)
unfolding add_connection
find_or_add fuel z (some p) tmp s = some (some p, tmp, s)
find_or_add fuel z none tmp s =
    if is_syn_rcvd tmp.connection.http.tcp_state
    then linked tmp (add_connection fuel z tmp.connection s)
    else some (none, tmp, s)

abbrev pub reset_for : ℕ → Connection → RstConnection
reset_for inack c = record {
  ip_addr = c.ip_addr;
  current_inseqno = c.http.current_inseqno;
  next_outseqno = inack;
  port = c.http.port;
}

-- `*connection = tmp_connection`, links included
abbrev pub store_conn : ℕ → TmpConnection → Store → Store
store_conn p tmp s = record s {
  ring = record s.ring {
    next = put s.ring.next p tmp.next;
    prev = put s.ring.prev p tmp.prev;
    conn = put s.ring.conn p tmp.connection;
  };
}

-- `no valid connection`, the end of one, or its update
unfoldable pub settle :
    ℕ
    → Sizes
    → ℕ
    → TmpConnection
    → Option ℕ
    → Store
    → RstConnection
    → Option (Store × RstConnection)
unfolding free_connection
settle fuel z inack tmp none s rst = some (s, reset_for inack tmp.connection)
settle fuel z inack tmp (some p) s rst =
    if is_listen tmp.connection.http.tcp_state
    then elim (free_connection fuel z p s) [ none ↦ none | some s' ↦ some (s', rst) ]
    else some (store_conn p tmp s, rst)

-- What follows a right checksum; `found` is the connection of the segment. The links of `tmp_connection` are those of
-- that connection, or unset when there is none.
unfoldable pub commit :
    ℕ
    → Sizes
    → (ℕ → Option ℕ × ℕ)
    → Deferred
    → ℕ
    → Option ℕ
    → TmpConnection
    → Store
    → RstConnection
    → Option (Store × RstConnection)
unfolding run_deferred find_or_add settle
commit fuel z stack_of d inack found tmp s rst =
    elim (run_deferred fuel z stack_of d inack tmp.connection s) [
      | none ↦ none
      | some (c', s') ↦ elim (find_or_add fuel z found (record tmp { connection = c' }) s') [
        | none ↦ none
        | some (at, tmp', s'') ↦ settle fuel z inack tmp' at s'' rst
      ]
    ]
