-- ===== src/Send/Generator/Again/Same.antt =====
-- A segment of a service that keeps contexts, when it is generated again.
use mathlib.Core.Path.{subst}
use smews.Base.{
  ℕ, suc, ◌^◌, ◌<◌, ◌≡◌, refl, sym, ap, ap₂, inr, ◌∙◌, Bool, true, false, not, ◌&&◌, Option, none,
  some, if◌then◌else◌, take,
}
use smews.Memory.{Allocator, mem_alloc}
use smews.Service.{
  Sizes, ServiceHeader, GeneratorService, InFlight, Infos, context, buffer, if_select,
}
use smews.Connections.Ring.Laws.{put_self}
use smews.Send.Packet.{CurrOutput}
use smews.Send.Room.{make_room}
use smews.Send.Generate.{Point, is_terminated}
use smews.Send.Generate.Written.{IsBytes, holding, after}
use smews.Send.Generator.{Site, Coroutine, and_then, with_heap, coroutine, point, is_retransmitting}
use smews.Send.Generator.Segment.{
  context_restore, restored, with_header, setup_header, take_room, made_room, with_room, generated,
  run_handler, make_segment, store_checksum, keep_buffer,
}
use smews.Send.Generator.Again.Backup.{make_room-again}
use smews.Send.Generator.Again.First.{
  Kept, begun, make_segment-new, take_room-running, run_handler-holding, make_segment-Kept,
}

-- Nothing that the segment at `n` is generated from has changed at the site `t`, which is about to send it again.
pub record SameBehind (a : ℕ) (n : ℕ) (s t : Site) : Type 0 where
  pub contexts : (t.services a).is_persistent ≡ false
  pub again : is_retransmitting a t ≡ true
  pub number : t.active.http.next_outseqno ≡ n
  pub infos :
      if_select n (t.services a).in_flight_infos ≡ if_select n (s.services a).in_flight_infos
  pub saved : t.saved ≡ s.saved

-- what is generated, in the block `b` that was allocated for it
pub record Generated (a b : ℕ) (heap : Allocator) (t t' : Site) (sent : CurrOutput) (ended : Bool)
    : Type 0 where
  pub out : t'.out ≡ sent
  pub has_ended : t'.has_ended ≡ ended
  pub active : t'.active ≡ t.active
  pub heap_is : t'.stacks.heap ≡ heap
  pub buffer_at : t'.buffer_at ≡ some b
  pub contexts : (t'.services a).is_persistent ≡ false

Generated-as :
    {a b : ℕ} {heap : Allocator} {t t' : Site} {x y : CurrOutput} {e e' : Bool}
    → Generated a b heap t t' x e
    → x ≡ y
    → e ≡ e'
    → Generated a b heap t t' y e'
Generated-as {a} {b} {heap} {t} {t'} {x} {y} {e} {e'} g p q =
    subst (λ k. Generated a b heap t t' k e') p (subst (λ k. Generated a b heap t t' x k) q g)

module _ (fuel : ℕ) (z : Sizes) (sp : Point → ℕ) (a room n : ℕ) (t : Site) (i : InFlight)
    (co : Coroutine) where
  abbrev back : Site
  back = restored a (begun t) (some i, co)

  abbrev coroutine_of : Infos → Coroutine
  coroutine_of k = elim k [ context p stack size ↦ t.saved p | buffer p ↦ coroutine a (begun t) ]

  abbrev restored_by : Option InFlight → Option InFlight × Coroutine
  restored_by o = elim o [
    | none ↦ (none, coroutine a (begun t))
    | some j ↦ (some j, coroutine_of j.infos)
  ]

  context_restore-found :
      (place size : ℕ) (stack : Option ℕ)
      → if_select n (t.services a).in_flight_infos ≡ some i
      → i.infos ≡ context place stack size
      → t.saved place ≡ co
      → context_restore n (t.services a) t.saved (coroutine a (begun t)) ≡ (some i, co)
  unfolding context_restore
  context_restore-found place size stack found kept is =
      ap restored_by found ∙ ap (λ k. (some i, coroutine_of k)) kept ∙ ap (λ k. (some i, k)) is

  setup_header-again :
      (t.services a).is_persistent ≡ false
      → is_retransmitting a t ≡ true
      → context_restore t.active.http.next_outseqno (t.services a) t.saved (coroutine a (begun t))
        ≡ (some i, co)
      → setup_header a (begun t) ≡ back
  unfolding setup_header is_retransmitting
  setup_header-again contexts again restores =
      ap₂
        (λ p k.
          if not p && k
          then restored a (begun t) (
              context_restore t.active.http.next_outseqno (t.services a) t.saved
                (coroutine a (begun t)))
          else with_header (t.services a).service_header (begun t))
        contexts again
      ∙ ap (restored a (begun t)) restores

  back-point : point (coroutine a back) ≡ point co
  back-point =
      ap₂ (λ c cs. record { status = c.status; rest = cs })
        (put_self t.stacks.contexts a co.context) (put_self t.rests a co.rest)

  -- the room for it
  abbrev roomy : ℕ → Allocator → Site
  roomy b heap =
      with_room a true (record { buffer_at = b; if_infos = none; service = t.services a })
        (with_heap heap back)

  take_room-again :
      (b : ℕ) (heap : Allocator)
      → is_retransmitting a t ≡ true
      → is_terminated co.context.status ≡ false
      → mem_alloc fuel z.output_buffer_size t.stacks.heap ≡ some (some b, heap)
      → take_room fuel z a back ≡ some (true, roomy b heap)
  unfolding is_retransmitting
  take_room-again b heap again runs allocs =
      take_room-running fuel z sp a back
        (ap (λ c. is_terminated c.status) (put_self t.stacks.contexts a co.context) ∙ runs)
      ∙ ap
          (λ k. made_room a k back (
            make_room fuel z (back.stacks.contexts a).sp k (t.services a)
              t.active.http.next_outseqno i.service_header t.stacks.heap))
          again
      ∙ ap (made_room a true back) (
          make_room-again fuel z (back.stacks.contexts a).sp t.active.http.next_outseqno b
            (t.services a) i.service_header t.stacks.heap heap allocs)

  abbrev sent_again : CurrOutput
  sent_again =
      holding (record t.out { service_header = i.service_header }) (take (suc room) co.rest)

  -- the service still keeps contexts behind it
  generated-contexts :
      (b : ℕ) (heap : Allocator) (out : CurrOutput) (q : Point)
      → (t.services a).is_persistent ≡ false
      → ((generated sp a out q (roomy b heap)).services a).is_persistent ≡ false
  unfolding generated store_checksum
  generated-contexts b heap out q contexts =
      ap (λ k. k.is_persistent)
        (put_self (roomy b heap).services a (stored_in ((roomy b heap).services a))
          ∙ ap stored_in (put_self t.services a (t.services a)))
      ∙ stored-contexts (t.services a) contexts
    where
      stored_in : GeneratorService → GeneratorService
      stored_in k =
          store_checksum (some i.node) out.checksum
            (keep_buffer (some i.node) (some b) t.active.http.next_outseqno out k)

      stored-contexts :
          (k : GeneratorService) → k.is_persistent ≡ false → (stored_in k).is_persistent ≡ false
      stored-contexts k e = rw e refl

  run_handler-again :
      (b : ℕ) (heap : Allocator)
      → (t.services a).is_persistent ≡ false
      → is_terminated co.context.status ≡ false
      → IsBytes co.rest
      → t.out.max_bytes ≡ suc room
      → suc room < 2 ^ 16
      → (t' : Site) × (run_handler sp a (roomy b heap) ≡ some (true, t'))
        × Generated a b heap t t' sent_again (is_terminated (after (suc room) co.rest).status)
  unfolding generated
  run_handler-again b heap contexts runs bytes m fits =
      let rests = put_self t.rests a co.rest in
      (
        generated sp a
            (holding (record t.out { service_header = i.service_header })
              (take (suc room) (back.rests a)))
            (after (suc room) (back.rests a)) (roomy b heap),
        run_handler-holding fuel z sp a room (roomy b heap)
            (inr (ap (λ q. is_terminated q.status) back-point ∙ runs))
            (subst IsBytes (sym rests) bytes) m fits,
        record {
          out =
              ap
                (λ cs.
                  holding (record t.out { service_header = i.service_header }) (take (suc room) cs))
                rests;
          has_ended = ap (λ cs. is_terminated (after (suc room) cs).status) rests;
          active = refl;
          heap_is = refl;
          buffer_at = refl;
          contexts =
              generated-contexts b heap
                (holding (record t.out { service_header = i.service_header })
                  (take (suc room) (back.rests a)))
                (after (suc room) (back.rests a)) contexts;
        },
      )

  make_segment-back :
      (b : ℕ) (heap : Allocator)
      → (t.services a).is_persistent ≡ false
      → is_retransmitting a t ≡ true
      → context_restore t.active.http.next_outseqno (t.services a) t.saved (coroutine a (begun t))
        ≡ (some i, co)
      → mem_alloc fuel z.output_buffer_size t.stacks.heap ≡ some (some b, heap)
      → is_terminated co.context.status ≡ false
      → IsBytes co.rest
      → t.out.max_bytes ≡ suc room
      → suc room < 2 ^ 16
      → (t' : Site) × (make_segment fuel z sp a t ≡ some (true, t'))
        × Generated a b heap t t' sent_again (is_terminated (after (suc room) co.rest).status)
  make_segment-back b heap contexts again restores allocs runs bytes m fits =
      let (t', runs_handler, generates) = run_handler-again b heap contexts runs bytes m fits in
      (
        t',
        make_segment-new fuel z sp a t contexts
            ∙ ap (λ u. and_then (take_room fuel z a u) (run_handler sp a))
                (setup_header-again contexts again restores)
            ∙ ap (λ o. and_then o (run_handler sp a)) (take_room-again b heap again runs allocs)
            ∙ runs_handler,
        generates,
      )

module _ (fuel : ℕ) (z : Sizes) (sp : Point → ℕ) (a room n : ℕ) (s t : Site)
    (header : ServiceHeader) (p : Point) (sent : CurrOutput) (ended : Bool) (b : ℕ)
    (heap : Allocator) where
  -- What the context was saved for, generated again with what fits now.
  pub make_segment-Kept_again :
      Kept n a header p sent ended s
      → SameBehind a n s t
      → mem_alloc fuel z.output_buffer_size t.stacks.heap ≡ some (some b, heap)
      → is_terminated p.status ≡ false
      → IsBytes p.rest
      → t.out.max_bytes ≡ suc room
      → suc room < 2 ^ 16
      → (t' : Site) × (make_segment fuel z sp a t ≡ some (true, t'))
        × Generated a b heap t t'
            (holding (record t.out { service_header = header }) (take (suc room) p.rest))
            (is_terminated (after (suc room) p.rest).status)
  make_segment-Kept_again k same allocs runs bytes m fits =
      let rests : (s.saved k.place).rest ≡ p.rest = ap (λ q. q.rest) k.copy in
      let (t', makes, generates) =
        make_segment-back fuel z sp a room n t k.infos (s.saved k.place) b heap same.contexts
          same.again
          (ap (λ m. context_restore m (t.services a) t.saved (coroutine a (begun t))) same.number
            ∙ context_restore-found fuel z sp a room n t k.infos (s.saved k.place) k.place k.size
                k.stack (same.infos ∙ k.found) k.kept (ap (λ f. f k.place) same.saved))
          allocs (ap (λ q. is_terminated q.status) k.copy ∙ runs) (subst IsBytes (sym rests) bytes)
          m fits in
      (
        t',
        makes,
        Generated-as generates
            (ap₂ (λ h cs. holding (record t.out { service_header = h }) (take (suc room) cs))
              k.its_header rests)
            (ap (λ cs. is_terminated (after (suc room) cs).status) rests),
      )

-- A service that keeps contexts has made a segment for the first time. Whenever its context still is
-- behind its number, a buffer can be allocated and as many bytes fit, making the segment of that number
-- again succeeds, with the same characters, checksum, header, and knowledge of the end.
pub make_segment-again :
    (fuel : ℕ) (z : Sizes) (sp : Point → ℕ) (a room : ℕ) (s s' t : Site) (b : ℕ) (heap : Allocator)
    → (s.services a).is_persistent ≡ false
    → is_retransmitting a s ≡ false
    → is_terminated (s.stacks.contexts a).status ≡ false
    → IsBytes (s.rests a)
    → s.out.max_bytes ≡ suc room
    → suc room < 2 ^ 16
    → make_segment fuel z sp a s ≡ some (true, s')
    → SameBehind a s.active.http.next_outseqno s' t
    → mem_alloc fuel z.output_buffer_size t.stacks.heap ≡ some (some b, heap)
    → t.out.max_bytes ≡ s.out.max_bytes
    → (t' : Site) × (make_segment fuel z sp a t ≡ some (true, t'))
      × Generated a b heap t t' s'.out s'.has_ended
make_segment-again fuel z sp a room s s' t b heap contexts first runs bytes m fits made same allocs
      fit =
    let k = make_segment-Kept fuel z sp a room s s' contexts first runs bytes m fits made in
    let header = (s.services a).service_header in
    let (t', makes, generates) =
      make_segment-Kept_again fuel z sp a room s.active.http.next_outseqno s' t header
        (point (coroutine a s))
        (holding (record s.out { service_header = header }) (take (suc room) (s.rests a)))
        (is_terminated (after (suc room) (s.rests a)).status) b heap k same allocs runs bytes
        (fit ∙ m) fits in
    (
      t',
      makes,
      Generated-as generates
          (ap
              (λ x.
                holding (record s.out { max_bytes = x; service_header = header })
                  (take (suc room) (s.rests a)))
              fit
            ∙ sym k.out)
          (sym k.has_ended),
    )
