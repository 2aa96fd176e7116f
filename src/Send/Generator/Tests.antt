-- ===== src/Send/Generator/Tests.antt =====
-- A handler that gives sixty characters: its first segment, lost and made again.
use smews.Base.{
  ℕ, ◌≡◌, refl, Bool, true, false, Option, none, some, List, [], ◌∷◌, replicate, ◌==◌,
  if◌then◌else◌,
}
use smews.Memory.{Allocator, Cells, mem_alloc}
use smews.Service.{Sizes, header_standard, header_chunks}
use smews.Handlers.{OutputHandler, generator, prop_volatile, control_handler}
use smews.Connections.{is_gpip}
use smews.Connections.Samples.{http, client}
use smews.Coroutines.{cr_ready}
use smews.Send.Samples.{idle}
use smews.Send.Generate.{Point, max_bytes}
use smews.Send.Generator.{Site, share_comet}
use smews.Send.Generator.Segment.{make_segment}
use smews.Send.Generator.Finish.{send_all}
use smews.Send.Generator.Comet.{send_all-share_comet}

abbrev letters : List ℕ
letters = replicate 60 97

abbrev cells : Cells
cells x = if x == 0 then record { size = 200; to_next = 200 } else record { size = 0; to_next = 0 }

abbrev sizes : Sizes
sizes = record {
  output_buffer_size = 64;
  context_size = 12;
  in_flight_size = 20;
  service_size = 24;
  connection_size = 40;
}

-- the stack that the handler uses
abbrev sp : Point → ℕ
sp q = 40

abbrev start : Site
start = record {
  active = record client { http = record http { tcp_mss = 128; generator_service = some 150 } };
  others = [];
  services = λ x. record {
    curr_outseqno = 5000;
    in_flight_infos = [];
    service_header = header_standard;
    is_persistent = false;
  };
  stacks = record {
    cr_in_stack = some 150;
    contexts = λ x. record { status = cr_ready; stack = none; stack_size = 0; sp = 0 };
    heap = record { cells = cells; first_free = 0 };
    shared_stack = λ d. none;
    blocks = λ p i. none;
  };
  rests = λ x. letters;
  saved = λ x. record {
    context = record { status = cr_ready; stack = none; stack_size = 0; sp = 0 };
    rest = [];
  };
  buffers = λ x. [];
  out = record idle { max_bytes = max_bytes 5 64 128 header_chunks };
  if_infos = none;
  buffer_at = none;
  has_ended = false;
  packets = [];
}

abbrev site_in : Option (Bool × Site) → Site
site_in none = start
site_in (some (b, s)) = s

unfoldable made : Site
unfolding make_segment
made = site_in (make_segment 201 sizes sp 150 start)

-- the segment was sent, and the next one is going to be the first again
abbrev lost : ℕ → Site
lost n = record made {
  services = λ x. record (made.services x) { curr_outseqno = 5128 };
  out = record made.out { max_bytes = n };
}

abbrev block_in : Option (Option ℕ × Allocator) → ℕ
block_in (some (some p, heap)) = p
block_in _ = 0

abbrev heap_in : Option (Option ℕ × Allocator) → Allocator
heap_in (some (o, heap)) = heap
heap_in none = record { cells = cells; first_free = 0 }

abbrev block : ℕ
block = block_in (mem_alloc 201 64 made.stacks.heap)

abbrev heap_behind : Allocator
heap_behind = heap_in (mem_alloc 201 64 made.stacks.heap)

abbrev pages : OutputHandler
pages = record (control_handler 9 0 0) { handler_data = generator prop_volatile }

abbrev comet : OutputHandler
comet = record (control_handler 9 0 0) {
  handler_comet = true;
  handler_data = generator prop_volatile;
}

send_all-share_comet_example :
    send_all 5 0 0 idle true comet
      (share_comet comet (record start { others = client ∷ [] })).others
    ≡ ([], (share_comet comet (record start { others = client ∷ [] })).others)
unfolding is_gpip
send_all-share_comet_example =
    send_all-share_comet 5 0 0 idle true comet (record start { others = client ∷ [] }) refl
      (refl, tt)
