-- ===== src/Service.antt =====
-- The in-flight segments of a generator service: the structures of core/connections.h,
-- `clean_service` of core/service.c and `if_select` of core/coroutines.c.
pub mod Release
pub mod Clean
mod Tests
use smews.Base.{
  ℕ, zero, suc, Bool, true, false, not, Option, none, some, List, [], ◌∷◌, ◌++◌, ltb, leb, ◌==◌,
  if◌then◌else◌,
}
use smews.Memory.{Allocator, mem_free}

-- `enum service_header_e`
pub data ServiceHeader : Type 0 where
  header_none header_standard header_chunks : ServiceHeader

-- the member of `union if_infos_e` in use, by what is to be freed with it
pub data Infos : Type 0 where
  -- the address of a context, and the address and size of its stack
  context : ℕ → Option ℕ → ℕ → Infos
  -- the address of a buffer
  buffer : ℕ → Infos

-- `struct in_flight_infos_t`, at the address `node`
pub record InFlight : Type 0 where
  pub node : ℕ
  pub next_outseqno : ℕ
  pub checksum : ℕ
  pub infos : Infos
  pub service_header : ServiceHeader

-- `struct generator_service_t`, without its coroutine
pub record GeneratorService : Type 0 where
  pub curr_outseqno : ℕ
  pub in_flight_infos : List InFlight
  pub service_header : ServiceHeader
  pub is_persistent : Bool

-- sizes in bytes that the target decides
pub record Sizes : Type 0 where
  pub output_buffer_size : ℕ
  pub context_size : ℕ
  pub in_flight_size : ℕ
  pub service_size : ℕ
  pub connection_size : ℕ

-- Calls of `mem_free`, in order. `none` is a loop of one that does not end.
unfoldable pub release : ℕ → List (Option ℕ × ℕ) → Allocator → Option Allocator
release fuel [] heap = some heap
release fuel ((p, size) ∷ blocks) heap = elim (mem_free fuel p size heap) [
  | none ↦ none
  | some heap' ↦ release fuel blocks heap'
]

-- the blocks of the member in use
unfoldable pub infos_blocks : Sizes → Infos → List (Option ℕ × ℕ)
infos_blocks z (buffer p) = (some p, z.output_buffer_size) ∷ []
infos_blocks z (context p stack stack_size) = (stack, stack_size) ∷ (some p, z.context_size) ∷ []

-- What `clean_service` frees of one segment's union: a persistent service reads it as a buffer, any other as a
-- context. The bytes of a buffer that is read as a context are not modelled.
unfoldable pub freed_infos : Sizes → Bool → Infos → Option (List (Option ℕ × ℕ))
freed_infos z true (buffer p) = some ((some p, z.output_buffer_size) ∷ [])
freed_infos z true (context p stack stack_size) = some ((some p, z.output_buffer_size) ∷ [])
freed_infos z false (buffer p) = none
freed_infos z false (context p stack stack_size) =
    some ((stack, stack_size) ∷ (some p, z.context_size) ∷ [])

unfoldable pub segment_blocks : Sizes → InFlight → List (Option ℕ × ℕ)
unfolding infos_blocks
segment_blocks z i = infos_blocks z i.infos ++ (some i.node, z.in_flight_size) ∷ []

-- all that the segments own
unfoldable pub blocks_of : Sizes → List InFlight → List (Option ℕ × ℕ)
unfolding segment_blocks
blocks_of z [] = []
blocks_of z (i ∷ is) = segment_blocks z i ++ blocks_of z is

-- The arguments of the calls of `mem_free` for the segments that are acknowledged, in order.
unfoldable pub freed_blocks : Sizes → Bool → List InFlight → Option (List (Option ℕ × ℕ))
unfolding freed_infos
freed_blocks z persistent [] = some []
freed_blocks z persistent (i ∷ is) =
    let rest = freed_blocks z persistent is in
    elim (freed_infos z persistent i.infos) [
      | none ↦ none
      | some blocks ↦ elim rest [
        | none ↦ none
        | some others ↦ some ((blocks ++ (some i.node, z.in_flight_size) ∷ []) ++ others)
      ]
    ]

-- The loop over the segments that are not acknowledged yet: those, and the rest.
unfoldable pub split_acked : ℕ → List InFlight → List InFlight × List InFlight
split_acked inack [] = ([], [])
split_acked inack (i ∷ is) =
    let (kept, acked) = split_acked inack is in
    if leb inack i.next_outseqno then (i ∷ kept, acked) else ([], i ∷ is)

abbrev pub split_by : Option ℕ → List InFlight → List InFlight × List InFlight
split_by none is = ([], is)
split_by (some inack) is = split_acked inack is

unfoldable pub release_infos : ℕ → Option (List (Option ℕ × ℕ)) → Allocator → Option Allocator
unfolding release
release_infos fuel none heap = none
release_infos fuel (some blocks) heap = release fuel blocks heap

unfoldable pub clean_service :
    ℕ → Sizes → GeneratorService → Option ℕ → Allocator → Option (GeneratorService × Allocator)
unfolding release_infos freed_blocks split_acked
clean_service fuel z s inack heap =
    let (kept, acked) = split_by inack s.in_flight_infos in
    elim (release_infos fuel (freed_blocks z s.is_persistent acked) heap) [
      | none ↦ none
      | some heap' ↦ some (record s { in_flight_infos = kept }, heap')
    ]

unfoldable pub if_select : ℕ → List InFlight → Option InFlight
if_select next_outseqno [] = none
if_select next_outseqno (i ∷ is) =
    if not (i.next_outseqno == next_outseqno) then if_select next_outseqno is else some i
