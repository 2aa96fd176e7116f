-- ===== src/Send/Room.antt =====
-- The memory for a new segment of a generator in `smews_send` of core/output.c, before its coroutine runs: a buffer, the
-- in-flight segment unless it is sent again, and a copy of the context unless the service keeps buffers.
pub mod Owns
pub mod Laws
mod Tests
use smews.Base.{ℕ, Bool, true, false, not, Option, none, some, List, [], ◌∷◌, if◌then◌else◌}
use smews.Memory.{Allocator, mem_alloc}
use smews.Service.{Sizes, ServiceHeader, GeneratorService, InFlight, Infos, buffer, release}
use smews.Coroutines.{context_backup}

pub record Room : Type 0 where
  pub buffer_at : ℕ
  pub if_infos : Option ℕ
  pub service : GeneratorService

-- a new in-flight segment at `i`; what is not set yet is 0
abbrev pub blank : ℕ → ServiceHeader → InFlight
blank i header = record {
  node = i;
  next_outseqno = 0;
  checksum = 0;
  infos = buffer 0;
  service_header = header;
}

abbrev pub give_back : ℕ → List (Option ℕ × ℕ) → Allocator → Option (Option Room × Allocator)
give_back fuel blocks heap = elim (release fuel blocks heap) [
  | none ↦ none
  | some heap' ↦ some (none, heap')
]

abbrev pub with_context :
    ℕ
    → Sizes
    → ℕ
    → ℕ
    → Option (Option GeneratorService × Allocator)
    → Option (Option Room × Allocator)
with_context fuel z b i none = none
with_context fuel z b i (some (none, heap)) =
    give_back fuel ((some b, z.output_buffer_size) ∷ (some i, z.in_flight_size) ∷ []) heap
with_context fuel z b i (some (some service, heap)) =
    some (some (record { buffer_at = b; if_infos = some i; service = service }), heap)

unfoldable pub with_infos :
    ℕ
    → Sizes
    → ℕ
    → GeneratorService
    → ℕ
    → ServiceHeader
    → ℕ
    → Option (Option ℕ × Allocator)
    → Option (Option Room × Allocator)
unfolding context_backup
with_infos fuel z sp service next_outseqno header b none = none
with_infos fuel z sp service next_outseqno header b (some (none, heap)) =
    give_back fuel ((some b, z.output_buffer_size) ∷ []) heap
with_infos fuel z sp service next_outseqno header b (some (some i, heap)) =
    if service.is_persistent
    then some (some (record { buffer_at = b; if_infos = some i; service = service }), heap)
    else with_context fuel z b i
        (context_backup fuel z sp service next_outseqno (blank i header) heap)

unfoldable pub with_buffer :
    ℕ
    → Sizes
    → ℕ
    → Bool
    → GeneratorService
    → ℕ
    → ServiceHeader
    → Option (Option ℕ × Allocator)
    → Option (Option Room × Allocator)
unfolding with_infos
with_buffer fuel z sp retransmitting service next_outseqno header none = none
with_buffer fuel z sp retransmitting service next_outseqno header (some (none, heap)) =
    some (none, heap)
with_buffer fuel z sp retransmitting service next_outseqno header (some (some b, heap)) =
    if retransmitting
    then some (some (record { buffer_at = b; if_infos = none; service = service }), heap)
    else with_infos fuel z sp service next_outseqno header b (mem_alloc fuel z.in_flight_size heap)

-- The coroutine uses `sp` bytes of its stack; a result of `none` is NULL for one of the blocks.
unfoldable pub make_room :
    ℕ
    → Sizes
    → ℕ
    → Bool
    → GeneratorService
    → ℕ
    → ServiceHeader
    → Allocator
    → Option (Option Room × Allocator)
unfolding with_buffer
make_room fuel z sp retransmitting service next_outseqno header heap =
    with_buffer fuel z sp retransmitting service next_outseqno header
      (mem_alloc fuel z.output_buffer_size heap)
