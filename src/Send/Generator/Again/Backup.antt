-- ===== src/Send/Generator/Again/Backup.antt =====
-- The context that is saved in the room for a new segment.
use mathlib.Core.Path.{subst}
use smews.Base.{
  ℕ, ◌≡◌, refl, sym, ap, ◌∙◌, true, false, Option, none, some, [], ◌∷◌, if◌then◌else◌, u16,
}
use smews.Memory.{Allocator, mem_alloc}
use smews.Service.{Sizes, ServiceHeader, GeneratorService, InFlight, release}
use smews.Coroutines.{backed_up, backup_stack, context_backup}
use smews.Send.Room.{Room, blank, with_context, with_infos, with_buffer, make_room}

-- a service with a copy of the context, at `p`, in front
pub record Copied (n : ℕ) (i : InFlight) (service service' : GeneratorService) : Type 0 where
  pub p : ℕ
  pub stack : Option ℕ
  pub size : ℕ
  pub is : service' ≡ backed_up n i service p stack size

service_of :
    {x y : GeneratorService} {h k : Allocator}
    → ◌≡◌ {A = Option (Option GeneratorService × Allocator)} (some (some x, h)) (some (some y, k))
    → y ≡ x
service_of {x} e = sym (ap (λ o. elim o [ some (some a, _) ↦ a | _ ↦ x ]) e)

module _ (fuel : ℕ) (z : Sizes) (sp n : ℕ) (service service' : GeneratorService) where
  -- what `context_backup` makes of a stack, and of a context
  abbrev stacked :
      InFlight
      → ℕ
      → Option (Option (Option ℕ) × Allocator)
      → Option (Option GeneratorService × Allocator)
  stacked i p o = elim o [
    | none ↦ none
    | some (none, h) ↦ some (none, h)
    | some (some stack, h) ↦ some (some (backed_up n i service p stack (u16 sp)), h)
  ]

  abbrev contexted :
      InFlight → Option (Option ℕ × Allocator) → Option (Option GeneratorService × Allocator)
  contexted i o = elim o [
    | none ↦ none
    | some (none, h) ↦ some (none, h)
    | some (some p, h) ↦ stacked i p (backup_stack fuel z.context_size p (u16 sp) h)
  ]

  stacked-Copied :
      (i : InFlight) (heap : Allocator) (p : ℕ) (o : Option (Option (Option ℕ) × Allocator))
      → stacked i p o ≡ some (some service', heap)
      → Copied n i service service'
  stacked-Copied i heap p none e = cc
  stacked-Copied i heap p (some (none, h)) e = cc
  stacked-Copied i heap p (some (some stack, h)) e = record {
    p = p;
    stack = stack;
    size = u16 sp;
    is = service_of e;
  }

  contexted-Copied :
      (i : InFlight) (heap : Allocator) (o : Option (Option ℕ × Allocator))
      → contexted i o ≡ some (some service', heap)
      → Copied n i service service'
  contexted-Copied i heap none e = cc
  contexted-Copied i heap (some (none, h)) e = cc
  contexted-Copied i heap (some (some p, h)) e =
      stacked-Copied i heap p (backup_stack fuel z.context_size p (u16 sp) h) e

  context_backup-Copied :
      (i : InFlight) (heap heap' : Allocator)
      → context_backup fuel z sp service n i heap ≡ some (some service', heap')
      → Copied n i service service'
  unfolding context_backup
  context_backup-Copied i heap heap' e =
      contexted-Copied i heap' (mem_alloc fuel z.context_size heap) e

-- The room for a new segment of a service that keeps contexts
pub record RoomCopied (n : ℕ) (header : ServiceHeader) (service : GeneratorService) (room : Room)
    : Type 0 where
  pub node : ℕ
  pub if_infos : room.if_infos ≡ some node
  pub copied : Copied n (blank node header) service room.service

room_of :
    {x y : Room} {h k : Allocator}
    → ◌≡◌ {A = Option (Option Room × Allocator)} (some (some x, h)) (some (some y, k))
    → y ≡ x
room_of {x} e = sym (ap (λ o. elim o [ some (some a, _) ↦ a | _ ↦ x ]) e)

module _ (fuel : ℕ) (z : Sizes) (sp n : ℕ) (header : ServiceHeader) (service : GeneratorService)
    (room : Room) where
  abbrev given_back : Option Allocator → Option (Option Room × Allocator)
  given_back o = elim o [ none ↦ none | some heap ↦ some (none, heap) ]

  given_back-fails :
      (heap : Allocator) (o : Option Allocator)
      → given_back o ≡ some (some room, heap)
      → RoomCopied n header service room
  given_back-fails heap none e = cc
  given_back-fails heap (some h) e = cc

  with_context-RoomCopied :
      (b i : ℕ) (heap : Allocator) (o : Option (Option GeneratorService × Allocator))
      → ((s : GeneratorService) (h : Allocator)
          → o ≡ some (some s, h)
          → Copied n (blank i header) service s)
      → with_context fuel z b i o ≡ some (some room, heap)
      → RoomCopied n header service room
  with_context-RoomCopied b i heap none copied e = cc
  with_context-RoomCopied b i heap (some (none, h)) copied e =
      given_back-fails heap
        (release fuel ((some b, z.output_buffer_size) ∷ (some i, z.in_flight_size) ∷ []) h) e
  with_context-RoomCopied b i heap (some (some s, h)) copied e =
      let is : room ≡ record { buffer_at = b; if_infos = some i; service = s } = room_of e in
      record {
        node = i;
        if_infos = ap (λ r. r.if_infos) is;
        copied =
            subst (Copied n (blank i header) service) (sym (ap (λ r. r.service) is))
              (copied s h refl);
      }

  with_infos-RoomCopied :
      (b : ℕ) (heap : Allocator) (o : Option (Option ℕ × Allocator))
      → service.is_persistent ≡ false
      → with_infos fuel z sp service n header b o ≡ some (some room, heap)
      → RoomCopied n header service room
  unfolding with_infos
  with_infos-RoomCopied b heap none contexts e = cc
  with_infos-RoomCopied b heap (some (none, h)) contexts e =
      given_back-fails heap (release fuel ((some b, z.output_buffer_size) ∷ []) h) e
  with_infos-RoomCopied b heap (some (some i, h)) contexts e =
      with_context-RoomCopied b i heap (context_backup fuel z sp service n (blank i header) h)
        (λ s h'. context_backup-Copied fuel z sp n service s (blank i header) h h')
        (ap
            (λ k.
              if k
              then some (some (record { buffer_at = b; if_infos = some i; service = service }), h)
              else with_context fuel z b i (context_backup fuel z sp service n (blank i header) h))
            (sym contexts)
          ∙ e)

  with_buffer-RoomCopied :
      (heap : Allocator) (o : Option (Option ℕ × Allocator))
      → service.is_persistent ≡ false
      → with_buffer fuel z sp false service n header o ≡ some (some room, heap)
      → RoomCopied n header service room
  unfolding with_buffer
  with_buffer-RoomCopied heap none contexts e = cc
  with_buffer-RoomCopied heap (some (none, h)) contexts e = cc
  with_buffer-RoomCopied heap (some (some b, h)) contexts e =
      with_infos-RoomCopied b heap (mem_alloc fuel z.in_flight_size h) contexts e

  pub make_room-RoomCopied :
      (heap heap' : Allocator)
      → service.is_persistent ≡ false
      → make_room fuel z sp false service n header heap ≡ some (some room, heap')
      → RoomCopied n header service room
  unfolding make_room
  make_room-RoomCopied heap heap' contexts e =
      with_buffer-RoomCopied heap' (mem_alloc fuel z.output_buffer_size heap) contexts e

-- A segment that is sent again needs a buffer only.
pub make_room-again :
    (fuel : ℕ) (z : Sizes) (sp n b : ℕ) (service : GeneratorService) (header : ServiceHeader)
    (heap heap' : Allocator)
    → mem_alloc fuel z.output_buffer_size heap ≡ some (some b, heap')
    → make_room fuel z sp true service n header heap
      ≡ some (some (record { buffer_at = b; if_infos = none; service = service }), heap')
unfolding make_room with_buffer
make_room-again fuel z sp n b service header heap heap' e =
    ap (with_buffer fuel z sp true service n header) e
