-- ===== src/Connections/Store.antt =====
-- The connections in the allocator's buffer: `add_connection`, `free_connection` and
-- `request_packet_out_call` of core/connections.c. An address serves in the allocator and in the
-- ring alike; `none` as a result is a loop of the allocator that the fuel does not cover.
pub mod Laws
mod Tests
use smews.Base.{
  ℕ, Bool, true, false, not, Option, none, some, List, [], ◌∷◌, ◌++◌, ◌==◌, if◌then◌else◌,
}
use smews.Memory.{Allocator, mem_alloc, mem_free}
use smews.Service.{Sizes, GeneratorService, release, clean_service}
use smews.Handlers.{OutputHandler, gpip_get_output_handler}
use smews.Connections.{Connection, HttpConnection, handler_is_gpip, is_gpip}
use smews.Connections.Ring.{Ring, put, insert, unlink}

-- `all_connections`, the allocator, and the generator services by their addresses
pub record Store : Type 0 where
  pub ring : Ring
  pub heap : Allocator
  pub services : ℕ → GeneratorService

abbrev pub added : Connection → Store → Option (Option ℕ × Allocator) → Option (Option ℕ × Store)
added from s none = none
added from s (some (none, heap)) = some (none, record s { heap = heap })
added from s (some (some p, heap)) =
    some (some p, record s { heap = heap; ring = insert p from s.ring })

unfoldable pub add_connection : ℕ → Sizes → Connection → Store → Option (Option ℕ × Store)
add_connection fuel z from s = added from s (mem_alloc fuel z.connection_size s.heap)

-- `if (args && output_handler) mem_free(args, args_size)`
abbrev pub args_block : HttpConnection → Option OutputHandler → List (Option ℕ × ℕ)
args_block h none = []
args_block h (some handler) = (h.args, handler.args_size) ∷ []

-- The service is cleaned, then freed.
unfoldable pub free_service : ℕ → Sizes → Option ℕ → Store → Option Store
free_service fuel z none s = some s
free_service fuel z (some a) s = elim (clean_service fuel z (s.services a) none s.heap) [
  | none ↦ none
  | some (service, heap) ↦ elim (mem_free fuel (some a) z.service_size heap) [
    | none ↦ none
    | some heap' ↦ some (record s { heap = heap'; services = put s.services a service })
  ]
]

-- what a connection of HTTP owns beside its own block
unfoldable pub free_http : ℕ → Sizes → Connection → Store → Option Store
unfolding release free_service
free_http fuel z c s =
    if is_gpip c then some s else elim (release fuel (args_block c.http c.output_handler) s.heap) [
      | none ↦ none
      | some heap ↦ free_service fuel z c.http.generator_service (record s { heap = heap })
    ]

unfoldable pub free_connection : ℕ → Sizes → ℕ → Store → Option Store
unfolding free_http
free_connection fuel z p s =
    elim (free_http fuel z (s.ring.conn p) (record s { ring = unlink p s.ring })) [
      | none ↦ none
      | some s' ↦ elim (mem_free fuel (some p) z.connection_size s'.heap) [
        | none ↦ none
        | some heap ↦ some (record s' { heap = heap })
      ]
    ]

-- `request_packet_out_call`: `tmp` is the connection on the stack, its other fields unset.
unfoldable pub request_packet_out_call :
    ℕ → Sizes → List OutputHandler → Connection → ℕ → ℕ → Store → Option (Option ℕ × Store)
unfolding add_connection
request_packet_out_call fuel z resources tmp protocol dst_ip s =
    elim (gpip_get_output_handler protocol resources) [
      | none ↦ some (none, s)
      | some handler ↦
          added
            (record tmp {
              ip_addr = dst_ip;
              output_handler = some handler;
              gpip = record { payload_size = 0; protocol = protocol; want_to_send = 1 };
            })
            s (mem_alloc fuel z.connection_size s.heap)
    ]
