-- ===== src/Send/Generator/Again/First.antt =====
-- A segment of a service that keeps contexts, when it is generated for the first time.
use mathlib.Core.Path.{subst}
use smews.Base.{
  ℕ, suc, ◌^◌, ◌<◌, ◌≡◌, refl, sym, ap, ap₂, inr, ◌∙◌, Bool, true, false, not, ◌&&◌, ◌||◌, Option,
  none, some, if◌then◌else◌, take, ==_refl,
}
use smews.Memory.{Allocator}
use smews.Service.{Sizes, ServiceHeader, GeneratorService, InFlight, context, if_select}
use smews.Connections.Ring.{put}
use smews.Connections.Ring.Laws.{put_self}
use smews.Coroutines.{backed_up}
use smews.Send.Packet.{CurrOutput}
use smews.Send.Room.{Room, make_room, blank}
use smews.Send.Generate.{Point, is_terminated}
use smews.Send.Generate.Written.{IsPoint, IsBytes, holding, after, generate_segment-holding}
use smews.Send.Generator.{Site, and_then, with_heap, coroutine, point, is_retransmitting}
use smews.Send.Generator.Segment.{
  with_header, setup_header, restored, context_restore, take_room, made_room, with_room, generated,
  run_handler, new_segment, kept_segment, make_segment, store_checksum, keep_buffer,
}
use smews.Send.Generator.Again.Backup.{RoomCopied, make_room-RoomCopied}

-- What a first generation leaves: the segment `sent`, and behind the number `n` a context at
-- which the handler stands where it stood before.
pub record Kept (n a : ℕ) (header : ServiceHeader) (p : Point) (sent : CurrOutput) (ended : Bool)
    (s : Site) : Type 0 where
  pub out : s.out ≡ sent
  pub has_ended : s.has_ended ≡ ended
  pub infos : InFlight
  pub place : ℕ
  pub stack : Option ℕ
  pub size : ℕ
  pub found : if_select n (s.services a).in_flight_infos ≡ some infos
  pub kept : infos.infos ≡ context place stack size
  pub its_header : infos.service_header ≡ header
  pub copy : point (s.saved place) ≡ p

module _ (fuel : ℕ) (z : Sizes) (sp : Point → ℕ) (a room : ℕ) where
  -- The segment at a site, when the handler stands at a point.
  abbrev sent_at : Site → CurrOutput
  sent_at s = holding s.out (take (suc room) (s.rests a))

  pub run_handler-holding :
      (s : Site)
      → IsPoint (point (coroutine a s))
      → IsBytes (s.rests a)
      → s.out.max_bytes ≡ suc room
      → suc room < 2 ^ 16
      → run_handler sp a s
        ≡ some (true, generated sp a (sent_at s) (after (suc room) (s.rests a)) s)
  unfolding run_handler
  run_handler-holding s is bytes m fits =
      rw (run_handler, generate_segment-holding room s.out (point (coroutine a s)) is bytes m fits)
        refl

abbrev copy_of : ℕ → ℕ → ServiceHeader → GeneratorService → ℕ → Option ℕ → ℕ → GeneratorService
copy_of n node header service p stack size = backed_up n (blank node header) service p stack size

abbrev the_infos : ℕ → ℕ → ServiceHeader → ℕ → Option ℕ → ℕ → ℕ → InFlight
the_infos n node header p stack size checksum = record {
  node = node;
  next_outseqno = n;
  checksum = checksum;
  infos = context p stack size;
  service_header = header;
}

module _ (n node b p a size : ℕ) (stack : Option ℕ) (header : ServiceHeader)
    (service : GeneratorService) (s : Site) where
  abbrev with_copy : Site
  with_copy =
      with_room a false
        (record {
          buffer_at = b;
          if_infos = some node;
          service = copy_of n node header service p stack size;
        })
        s

  saved-copy : service.is_persistent ≡ false → point (with_copy.saved p) ≡ point (coroutine a s)
  saved-copy contexts =
      ap
        (λ k. point (
          (if not k && not false
              then put s.saved p (record {
                context = record (s.stacks.contexts a) { stack = stack; stack_size = size };
                rest = s.rests a;
              })
              else s.saved)
            p))
        contexts
      ∙ ap point (
          put_self s.saved p (record {
            context = record (s.stacks.contexts a) { stack = stack; stack_size = size };
            rest = s.rests a;
          }))

  abbrev stored : GeneratorService → CurrOutput → GeneratorService
  stored svc out =
      store_checksum (some node) out.checksum
        (keep_buffer (some node) (some b) s.active.http.next_outseqno out svc)

  stored-found :
      (out : CurrOutput)
      → service.is_persistent ≡ false
      → if_select n (stored (copy_of n node header service p stack size) out).in_flight_infos
        ≡ some (the_infos n node header p stack size out.checksum)
  unfolding if_select store_checksum
  stored-found out contexts = rw (contexts, ==_refl node, ==_refl n) refl

  -- the segment is found behind its number, with its checksum
  found-copy :
      (sp : Point → ℕ) (out : CurrOutput) (q : Point)
      → service.is_persistent ≡ false
      → if_select n ((generated sp a out q with_copy).services a).in_flight_infos
        ≡ some (the_infos n node header p stack size out.checksum)
  unfolding generated
  found-copy sp out q contexts =
      let svc = copy_of n node header service p stack size in
      ap (λ k. if_select n k.in_flight_infos)
        (put_self with_copy.services a (stored (with_copy.services a) out)
          ∙ ap (λ k. stored k out) (put_self s.services a svc))
      ∙ stored-found out contexts

  generated-Kept :
      (sp : Point → ℕ) (out : CurrOutput) (q : Point)
      → service.is_persistent ≡ false
      → Kept n a header
          (point (coroutine a s))
          out
          (is_terminated q.status)
          (generated sp a out q with_copy)
  unfolding generated
  generated-Kept sp out q contexts = record {
    out = refl;
    has_ended = refl;
    infos = the_infos n node header p stack size out.checksum;
    place = p;
    stack = stack;
    size = size;
    found = found-copy sp out q contexts;
    kept = refl;
    its_header = refl;
    copy = saved-copy contexts;
  }

site_of : {x y : Site} → ◌≡◌ {A = Option (Bool × Site)} (some (true, x)) (some (true, y)) → x ≡ y
site_of {x} e = ap (λ o. elim o [ some (_, a) ↦ a | _ ↦ x ]) e

-- the site with the variables that the segment sets
abbrev pub begun : Site → Site
begun s = record s { has_ended = false; if_infos = none }

abbrev headed : ℕ → Site → Site
headed a s = with_header (s.services a).service_header (begun s)

module _ (fuel : ℕ) (z : Sizes) (sp : Point → ℕ) (a : ℕ) where
  pub take_room-running :
      (s : Site)
      → is_terminated (s.stacks.contexts a).status ≡ false
      → take_room fuel z a s
        ≡ made_room a (is_retransmitting a s) s (
            make_room fuel z
              (s.stacks.contexts a).sp
              (is_retransmitting a s)
              (s.services a)
              s.active.http.next_outseqno
              s.out.service_header
              s.stacks.heap)
  unfolding take_room
  take_room-running s runs = rw runs refl

  setup_header-first :
      (s : Site)
      → (s.services a).is_persistent ≡ false
      → is_retransmitting a s ≡ false
      → setup_header a (begun s) ≡ headed a s
  unfolding setup_header is_retransmitting
  setup_header-first s contexts first =
      ap₂
        (λ p k.
          if not p && k
          then restored a (begun s) (
              context_restore s.active.http.next_outseqno (s.services a) s.saved
                (coroutine a (begun s)))
          else headed a s)
        contexts first

  pub make_segment-new :
      (s : Site)
      → (s.services a).is_persistent ≡ false
      → make_segment fuel z sp a s
        ≡ and_then (take_room fuel z a (setup_header a (begun s))) (run_handler sp a)
  unfolding make_segment new_segment
  make_segment-new s contexts =
      ap
        (λ k.
          if not k || not (is_retransmitting a s)
          then and_then (take_room fuel z a (setup_header a (begun s))) (run_handler sp a)
          else kept_segment a (begun s))
        contexts

  make_segment-first :
      (s : Site)
      → (s.services a).is_persistent ≡ false
      → is_retransmitting a s ≡ false
      → is_terminated (s.stacks.contexts a).status ≡ false
      → make_segment fuel z sp a s
        ≡ and_then
            (made_room a false (headed a s) (
              make_room fuel z
                (s.stacks.contexts a).sp
                false
                (s.services a)
                s.active.http.next_outseqno
                (s.services a).service_header
                s.stacks.heap))
            (run_handler sp a)
  unfolding is_retransmitting
  make_segment-first s contexts first runs =
      make_segment-new s contexts
      ∙ ap (λ t. and_then (take_room fuel z a t) (run_handler sp a))
          (setup_header-first s contexts first)
      ∙ ap (λ o. and_then o (run_handler sp a)) (take_room-running (headed a s) runs)
      ∙ ap
          (λ k.
            and_then
              (made_room a k (headed a s) (
                make_room fuel z (s.stacks.contexts a).sp k (s.services a)
                  s.active.http.next_outseqno (s.services a).service_header s.stacks.heap))
              (run_handler sp a))
          first

  module _ (room : ℕ) (s s' : Site) where
    abbrev first_sent : CurrOutput
    first_sent =
        holding (record s.out { service_header = (s.services a).service_header })
          (take (suc room) (s.rests a))

    room-Kept :
        (r : Room) (heap : Allocator)
        → (s.services a).is_persistent ≡ false
        → is_terminated (s.stacks.contexts a).status ≡ false
        → IsBytes (s.rests a)
        → s.out.max_bytes ≡ suc room
        → suc room < 2 ^ 16
        → RoomCopied s.active.http.next_outseqno (s.services a).service_header (s.services a) r
        → run_handler sp a (with_room a false r (with_heap heap (headed a s))) ≡ some (true, s')
        → Kept s.active.http.next_outseqno a
            (s.services a).service_header
            (point (coroutine a s))
            first_sent
            (is_terminated (after (suc room) (s.rests a)).status)
            s'
    room-Kept r heap contexts runs bytes m fits copied e =
        subst
          (Kept s.active.http.next_outseqno a (s.services a).service_header (point (coroutine a s))
            first_sent (is_terminated (after (suc room) (s.rests a)).status))
          (site_of (
            sym (run_handler-holding fuel z sp a room t (inr runs) bytes m fits)
            ∙ ap (λ k. run_handler sp a (with_room a false k (with_heap heap (headed a s))))
                (sym is)
            ∙ e))
          (generated-Kept s.active.http.next_outseqno copied.node r.buffer_at copied.copied.p a
            copied.copied.size copied.copied.stack (s.services a).service_header (s.services a)
            (with_heap heap (headed a s)) sp first_sent (after (suc room) (s.rests a)) contexts)
      where
        filled : Room
        filled = record {
          buffer_at = r.buffer_at;
          if_infos = some copied.node;
          service =
              copy_of s.active.http.next_outseqno copied.node (s.services a).service_header
                (s.services a) copied.copied.p copied.copied.stack copied.copied.size;
        }

        is : r ≡ filled
        is =
            ap₂ (λ i k. record { buffer_at = r.buffer_at; if_infos = i; service = k })
              copied.if_infos copied.copied.is

        t : Site
        t = with_room a false filled (with_heap heap (headed a s))

    made-Kept :
        (o : Option (Option Room × Allocator))
        → (s.services a).is_persistent ≡ false
        → is_terminated (s.stacks.contexts a).status ≡ false
        → IsBytes (s.rests a)
        → s.out.max_bytes ≡ suc room
        → suc room < 2 ^ 16
        → ((r : Room) (heap : Allocator)
            → o ≡ some (some r, heap)
            → RoomCopied s.active.http.next_outseqno (s.services a).service_header (s.services a) r)
        → and_then (made_room a false (headed a s) o) (run_handler sp a) ≡ some (true, s')
        → Kept s.active.http.next_outseqno a
            (s.services a).service_header
            (point (coroutine a s))
            first_sent
            (is_terminated (after (suc room) (s.rests a)).status)
            s'
    made-Kept none contexts runs bytes m fits copied e = cc
    made-Kept (some (none, h)) contexts runs bytes m fits copied e = cc
    made-Kept (some (some r, h)) contexts runs bytes m fits copied e =
        room-Kept r h contexts runs bytes m fits (copied r h refl) e

    -- A segment that is generated for the first time leaves the context before it.
    pub make_segment-Kept :
        (s.services a).is_persistent ≡ false
        → is_retransmitting a s ≡ false
        → is_terminated (s.stacks.contexts a).status ≡ false
        → IsBytes (s.rests a)
        → s.out.max_bytes ≡ suc room
        → suc room < 2 ^ 16
        → make_segment fuel z sp a s ≡ some (true, s')
        → Kept s.active.http.next_outseqno a
            (s.services a).service_header
            (point (coroutine a s))
            first_sent
            (is_terminated (after (suc room) (s.rests a)).status)
            s'
    make_segment-Kept contexts first runs bytes m fits e =
        made-Kept
          (make_room fuel z (s.stacks.contexts a).sp false (s.services a)
            s.active.http.next_outseqno (s.services a).service_header s.stacks.heap)
          contexts runs bytes m fits
          (λ r heap.
            make_room-RoomCopied fuel z (s.stacks.contexts a).sp s.active.http.next_outseqno
              (s.services a).service_header (s.services a) r s.stacks.heap heap contexts)
          (sym (make_segment-first s contexts first runs) ∙ e)
