-- ===== src/Send/Generator.antt =====
-- The branch of `smews_send` in core/output.c for a connection whose handler is a generator, in a build
-- with coroutines and without POST: here its state, and the creation of the generator's service.
pub mod Segment
pub mod Finish
pub mod Again
pub mod Comet
mod Tests
use smews.Base.{
  ℕ, ◌+◌, Bool, true, false, not, ◌&&◌, Option, none, some, List, [], ◌∷◌, map, ◌==◌, if◌then◌else◌,
  sub32,
}
use smews.Memory.{Allocator, mem_alloc}
use smews.Handlers.{OutputHandler, Persistence, prop_persistent, prop_idempotent, prop_volatile}
use smews.Service.{
  Sizes, ServiceHeader, GeneratorService, header_none, header_standard, header_chunks,
}
use smews.Connections.{Connection, HttpConnection}
use smews.Connections.Ring.{put}
use smews.Coroutines.{Context, Stacks, cr_init, cr_prepare}
use smews.Generators.{is_handler}
use smews.Send.Packet.{CurrOutput}
use smews.Send.Generate.{Point, max_bytes}

-- `struct coroutine_t`: its context, and in place of its stack what its handler has still to give to `out_c`
pub record Coroutine : Type 0 where
  pub context : Context
  pub rest : List ℕ

-- What the branch reads and writes. The connections behind the active one are listed in the order of
-- the ring; services, the stacks that stand for coroutines, copies of coroutines and buffers stand at
-- their addresses. The last fields are variables of `smews_send`, and the packets that it sends.
pub record Site : Type 0 where
  pub active : Connection
  pub others : List Connection
  pub services : ℕ → GeneratorService
  pub stacks : Stacks
  pub rests : ℕ → List ℕ
  pub saved : ℕ → Coroutine
  pub buffers : ℕ → List ℕ
  pub out : CurrOutput
  pub if_infos : Option ℕ
  pub buffer_at : Option ℕ
  pub has_ended : Bool
  pub packets : List (Option (List ℕ))

-- A step that goes on (`true`) or returns from `smews_send`; `none` is a loop of the allocator that
-- the fuel does not cover.
abbrev pub and_then : Option (Bool × Site) → (Site → Option (Bool × Site)) → Option (Bool × Site)
and_then none f = none
and_then (some (false, s)) f = some (false, s)
and_then (some (true, s)) f = f s

abbrev pub with_heap : Allocator → Site → Site
with_heap heap s = record s { stacks = record s.stacks { heap = heap } }

abbrev pub is_persistent : Persistence → Bool
is_persistent prop_persistent = true
is_persistent _ = false

abbrev pub with_max_bytes : ℕ → Site → Site
with_max_bytes n s = record s { out = record s.out { max_bytes = n } }

-- a comet handler has one active connection, the others are passive
unfoldable pub set_passive : OutputHandler → Bool → Connection → Connection
set_passive handler passive c =
    if is_handler handler c.output_handler
    then record c { http = record c.http { comet_passive = passive } }
    else c

unfoldable pub share_comet : OutputHandler → Site → Site
unfolding set_passive
share_comet handler s =
    if handler.handler_comet
    then record s {
      active = set_passive handler false s.active;
      others = map (set_passive handler true) s.others;
    }
    else s

-- streamed comet data goes on without a header
unfoldable pub start_stream : OutputHandler → ℕ → Site → Site
start_stream handler a s =
    if handler.handler_stream
    then record s {
      active = record s.active { http = record s.active.http { comet_streaming = true } };
      services = put s.services a (record (s.services a) {
        service_header =
            if s.active.http.comet_streaming then header_none else (s.services a).service_header;
      });
    }
    else s

abbrev pub new_service : Persistence → HttpConnection → GeneratorService
new_service prop h = record {
  curr_outseqno = h.next_outseqno;
  in_flight_infos = [];
  service_header = header_standard;
  is_persistent = is_persistent prop;
}

-- `creation and initialization of the generator_service`, at the address `a`; the handler is going to
-- give the characters `cs`.
unfoldable pub init_service : Persistence → List ℕ → ℕ → Site → Site
unfolding cr_init
init_service prop cs a s = record s {
  active = record s.active {
    http = record s.active.http {
      generator_service = some a;
      final_outseqno = sub32 s.active.http.next_outseqno 1;
    };
  };
  services = put s.services a (new_service prop s.active.http);
  stacks = record s.stacks { contexts = put s.stacks.contexts a cr_init };
  rests = put s.rests a cs;
}

abbrev pub created :
    ℕ
    → ℕ
    → OutputHandler
    → Persistence
    → List ℕ
    → Site
    → Option (Option ℕ × Allocator)
    → Option (Option ℕ × Site)
created nbits size handler prop cs s none = none
created nbits size handler prop cs s (some (none, heap)) = some (none, with_heap heap s)
created nbits size handler prop cs s (some (some a, heap)) = some (
  some a,
  start_stream handler a (
      share_comet handler (
        init_service prop cs a (
          with_max_bytes (max_bytes nbits size s.active.http.tcp_mss header_chunks)
            (with_heap heap s)))),
)

-- The service of the connection, and the bytes that a segment has room for: the header of a first
-- chunk is counted when the service is made, that of another chunk when it is there already.
unfoldable pub open_service :
    ℕ → ℕ → Sizes → OutputHandler → Persistence → List ℕ → Site → Option (Option ℕ × Site)
unfolding max_bytes init_service share_comet start_stream
open_service fuel nbits z handler prop cs s =
    let s' =
      with_max_bytes (max_bytes nbits z.output_buffer_size s.active.http.tcp_mss header_none) s in
    elim s.active.http.generator_service [
      | some a ↦ some (some a, s')
      | none ↦
          created nbits z.output_buffer_size handler prop cs s'
            (mem_alloc fuel z.service_size s.stacks.heap)
    ]

-- `put the coroutine (little) stack in the shared (big) stack if needed`
unfoldable pub prepare : ℕ → ℕ → Site → Option (Bool × Site)
unfolding cr_prepare
prepare fuel a s = elim (cr_prepare fuel a s.stacks) [
  | none ↦ none
  | some (goes_on, stacks) ↦ some (goes_on, record s { stacks = stacks })
]

unfoldable pub is_retransmitting : ℕ → Site → Bool
is_retransmitting a s = not (s.active.http.next_outseqno == (s.services a).curr_outseqno)

abbrev pub coroutine : ℕ → Site → Coroutine
coroutine a s = record { context = s.stacks.contexts a; rest = s.rests a }

abbrev pub point : Coroutine → Point
point co = record { status = co.context.status; rest = co.rest }

abbrev pub set_coroutine : ℕ → Coroutine → Site → Site
set_coroutine a co s = record s {
  stacks = record s.stacks { contexts = put s.stacks.contexts a co.context };
  rests = put s.rests a co.rest;
}
