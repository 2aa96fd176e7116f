-- ===== src/Send/Generator/Segment.antt =====
-- The segment of a generator in `smews_send` of core/output.c: generated, generated again from the
-- context that was saved for it, or taken from the buffer that was kept.
use smews.Base.{
  ℕ, Bool, true, false, not, ◌&&◌, ◌||◌, Option, none, some, List, [], ◌∷◌, map, ◌==◌,
  if◌then◌else◌,
}
use smews.Memory.{Allocator}
use smews.Service.{
  Sizes, ServiceHeader, GeneratorService, InFlight, Infos, context, buffer, header_none, if_select,
}
use smews.Connections.Ring.{put}
use smews.Send.Packet.{CurrOutput}
use smews.Send.Room.{Room, make_room}
use smews.Send.Generate.{Point, is_terminated, generate_segment}
use smews.Send.Generator.{
  Site, Coroutine, and_then, with_heap, coroutine, point, set_coroutine, is_retransmitting,
}

-- `context_restore`: the in-flight segment, and the coroutine as it was before it. A service that keeps
-- no buffers has contexts only.
unfoldable pub context_restore :
    ℕ → GeneratorService → (ℕ → Coroutine) → Coroutine → Option InFlight × Coroutine
unfolding if_select
context_restore next_outseqno service saved co =
    elim (if_select next_outseqno service.in_flight_infos) [
      | none ↦ (none, co)
      | some i ↦ (some i, elim i.infos [ context p stack stack_size ↦ saved p | buffer p ↦ co ])
    ]

abbrev pub with_header : ServiceHeader → Site → Site
with_header header s = record s { out = record s.out { service_header = header } }

abbrev pub restored : ℕ → Site → Option InFlight × Coroutine → Site
restored a s (none, co) = record (with_header header_none (set_coroutine a co s)) {
  if_infos = none;
}
restored a s (some i, co) = record (with_header i.service_header (set_coroutine a co s)) {
  if_infos = some i.node;
}

-- `setup the http header for this segment`
unfoldable pub setup_header : ℕ → Site → Site
unfolding context_restore
setup_header a s =
    if not (s.services a).is_persistent && is_retransmitting a s
    then restored a s
        (context_restore s.active.http.next_outseqno (s.services a) s.saved (coroutine a s))
    else with_header (s.services a).service_header s

-- the copy of the coroutine, at the context that `context_backup` took
abbrev pub back_up : Coroutine → Infos → (ℕ → Coroutine) → ℕ → Coroutine
back_up co (context p stack stack_size) saved =
    put saved p
      (record co { context = record co.context { stack = stack; stack_size = stack_size } })
back_up co (buffer p) saved = saved

abbrev pub back_up_first : Coroutine → List InFlight → (ℕ → Coroutine) → ℕ → Coroutine
back_up_first co [] saved = saved
back_up_first co (i ∷ is) saved = back_up co i.infos saved

-- the blocks are there; a segment that is sent again keeps its in-flight information
abbrev pub with_room : ℕ → Bool → Room → Site → Site
with_room a retransmitting room s = record s {
  services = put s.services a room.service;
  buffer_at = some room.buffer_at;
  if_infos = if retransmitting then s.if_infos else room.if_infos;
  saved =
      if not room.service.is_persistent && not retransmitting
      then back_up_first (coroutine a s) room.service.in_flight_infos s.saved
      else s.saved;
}

abbrev pub made_room : ℕ → Bool → Site → Option (Option Room × Allocator) → Option (Bool × Site)
made_room a retransmitting s none = none
made_room a retransmitting s (some (none, heap)) = some (false, with_heap heap s)
made_room a retransmitting s (some (some room, heap)) =
    some (true, with_room a retransmitting room (with_heap heap s))

-- A void chunk needs no room.
unfoldable pub take_room : ℕ → Sizes → ℕ → Site → Option (Bool × Site)
take_room fuel z a s =
    if is_terminated (s.stacks.contexts a).status
    then some (true, record s { buffer_at = none })
    else made_room a (is_retransmitting a s) s (
        make_room fuel z (s.stacks.contexts a).sp (is_retransmitting a s) (s.services a)
          s.active.http.next_outseqno s.out.service_header s.stacks.heap)

-- `save the generated buffer after generation if persistent`
abbrev pub keep_buffer : Option ℕ → Option ℕ → ℕ → CurrOutput → GeneratorService → GeneratorService
keep_buffer (some i) (some b) next_outseqno out service =
    if service.is_persistent
    then record service {
      in_flight_infos =
          record {
            node = i;
            next_outseqno = next_outseqno;
            checksum = 0;
            infos = buffer b;
            service_header = out.service_header;
          }
          ∷ service.in_flight_infos;
    }
    else service
keep_buffer i b next_outseqno out service = service

abbrev set_checksum : ℕ → ℕ → InFlight → InFlight
set_checksum node checksum i = if i.node == node then record i { checksum = checksum } else i

-- the checksum goes to the in-flight segment
unfoldable pub store_checksum : Option ℕ → ℕ → GeneratorService → GeneratorService
store_checksum none checksum service = service
store_checksum (some node) checksum service = record service {
  in_flight_infos = map (set_checksum node checksum) service.in_flight_infos;
}

abbrev pub store_buffer : Option ℕ → List ℕ → (ℕ → List ℕ) → ℕ → List ℕ
store_buffer none cs buffers = buffers
store_buffer (some b) cs buffers = put buffers b cs

-- The handler has run: `sp` is how much of the stack it uses at a point, which its code decides.
unfoldable pub generated : (Point → ℕ) → ℕ → CurrOutput → Point → Site → Site
unfolding store_checksum
generated sp a out q s =
    let co : Coroutine = record {
      context = record (s.stacks.contexts a) { status = q.status; sp = sp q };
      rest = q.rest;
    } in
    record (set_coroutine a co s) {
      out = out;
      has_ended = is_terminated q.status;
      buffers = store_buffer s.buffer_at out.buffer s.buffers;
      services = put s.services a (
          store_checksum s.if_infos out.checksum
            (keep_buffer s.if_infos s.buffer_at s.active.http.next_outseqno out (s.services a)));
    }

unfoldable pub run_handler : (Point → ℕ) → ℕ → Site → Option (Bool × Site)
unfolding generate_segment generated
run_handler sp a s = elim (generate_segment s.out (point (coroutine a s))) [
  | none ↦ none
  | some (out, q) ↦ some (true, generated sp a out q s)
]

-- `segment generation is needed`
unfoldable pub new_segment : ℕ → Sizes → (Point → ℕ) → ℕ → Site → Option (Bool × Site)
unfolding setup_header take_room run_handler
new_segment fuel z sp a s = and_then (take_room fuel z a (setup_header a s)) (run_handler sp a)

-- `the segment has to be resent from a buffer: restore it`. The number of its bytes is not kept. `none` is also
-- the null pointer, when no segment has the number.
unfoldable pub kept_segment : ℕ → Site → Option (Bool × Site)
kept_segment a s = elim (if_select s.active.http.next_outseqno (s.services a).in_flight_infos) [
  | none ↦ none
  | some i ↦ elim i.infos [
    | context p stack stack_size ↦ none
    | buffer b ↦ some (
      true,
      record s {
        out = record s.out {
          buffer = s.buffers b;
          service_header = i.service_header;
          checksum = i.checksum;
        };
        buffer_at = some b;
        if_infos = some i.node;
      },
    )
  ]
]

unfoldable pub make_segment : ℕ → Sizes → (Point → ℕ) → ℕ → Site → Option (Bool × Site)
unfolding new_segment kept_segment
make_segment fuel z sp a s =
    let blank = record s { has_ended = false; if_infos = none } in
    if not (s.services a).is_persistent || not (is_retransmitting a s)
    then new_segment fuel z sp a blank
    else kept_segment a blank
