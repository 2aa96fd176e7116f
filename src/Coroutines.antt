-- ===== src/Coroutines.antt =====
-- core/coroutines.c: which coroutine has the shared stack, and where the stacks of the others are kept. `sp`
-- is the number of bytes in use, STACK_SIZE less the stack pointer's place. A byte of the shared stack stands at its distance
-- from the last one, a byte of a block at its offset; `none` is a byte that is not known, such as those of a freed
-- block, whose first word gets a link. The blocks that `context_backup` fills are not among these: Send/Generator keeps
-- the coroutine that is copied there.
pub mod Laws
mod Tests
use smews.Base.{
  ℕ, zero, suc, ◌-◌, Bool, true, false, not, ◌&&◌, ltb, Option, none, some, List, [], ◌∷◌, ◌==◌,
  if◌then◌else◌, u16,
}
use smews.Memory.{Allocator, mem_alloc, mem_free}
use smews.Service.{Sizes, InFlight, Infos, context, GeneratorService}
use smews.Connections.Ring.{put}

pub data Status : Type 0 where
  cr_ready cr_active cr_terminated : Status

-- `struct cr_context_t`
pub record Context : Type 0 where
  pub status : Status
  pub stack : Option ℕ
  pub stack_size : ℕ
  pub sp : ℕ

-- `cr_in_stack`, and the contexts of the coroutines by their address
pub record Stacks : Type 0 where
  pub cr_in_stack : Option ℕ
  pub contexts : ℕ → Context
  pub heap : Allocator
  pub shared_stack : ℕ → Option ℕ
  pub blocks : ℕ → ℕ → Option ℕ

unfoldable pub cr_init : Context
cr_init = record { status = cr_ready; stack = none; stack_size = 0; sp = 0 }

-- `memcpy(stack, sp, size)`, to a block
unfoldable pub backup_bytes : ℕ → ℕ → (ℕ → Option ℕ) → (ℕ → Option ℕ) → ℕ → Option ℕ
backup_bytes sp size shared block i = if ltb i size then shared (sp - 1 - i) else block i

-- `memcpy(sp, stack, size)`, from a block
unfoldable pub restore_bytes : ℕ → ℕ → (ℕ → Option ℕ) → (ℕ → Option ℕ) → ℕ → Option ℕ
restore_bytes sp size block shared d =
    if ltb d sp && ltb (sp - 1 - d) size then block (sp - 1 - d) else shared d

-- The coroutine in the shared stack moves to a block of its own; `false` is a failed allocation.
unfoldable pub save_stack : ℕ → ℕ → Stacks → Option (Bool × Stacks)
unfolding backup_bytes
save_stack fuel a s =
    let sp = (s.contexts a).sp in
    elim (mem_alloc fuel (u16 sp) s.heap) [
      | none ↦ none
      | some (none, heap) ↦ some (
        false,
        record s {
          heap = heap;
          contexts = put s.contexts a (record (s.contexts a) { stack = none });
        },
      )
      | some (some p, heap) ↦ some (
        true,
        record s {
          heap = heap;
          contexts =
              put s.contexts a (record (s.contexts a) { stack = some p; stack_size = u16 sp });
          blocks = put s.blocks p (backup_bytes sp (u16 sp) s.shared_stack (s.blocks p));
        },
      )
    ]

-- the shared stack with the bytes of a coroutine's block, if it has one
abbrev pub stack_bytes : Option ℕ → Context → Stacks → ℕ → Option ℕ
stack_bytes none c s = s.shared_stack
stack_bytes (some q) c s = restore_bytes c.sp c.stack_size (s.blocks q) s.shared_stack

abbrev pub with_stack : Context → Stacks → Stacks
with_stack c s = record s { shared_stack = stack_bytes c.stack c s }

abbrev pub forget_block : Option ℕ → (ℕ → ℕ → Option ℕ) → ℕ → ℕ → Option ℕ
forget_block none blocks = blocks
forget_block (some q) blocks = put blocks q (λ i. none)

-- `deallocate the previously used stack`
unfoldable pub free_stack : ℕ → ℕ → Stacks → Option Stacks
unfolding put
free_stack fuel a s =
    let c = s.contexts a in
    elim (mem_free fuel c.stack c.stack_size s.heap) [
      | none ↦ none
      | some heap ↦ some (record s {
        heap = heap;
        contexts = put s.contexts a (record c { stack = none });
        blocks = forget_block c.stack s.blocks;
      })
    ]

abbrev pub in_stack : ℕ → Option Stacks → Option Stacks
in_stack a none = none
in_stack a (some s) = some (record s { cr_in_stack = some a })

-- The bytes of a coroutine's block are copied to the shared stack, then the block is given back.
unfoldable pub load_stack : ℕ → ℕ → Stacks → Option Stacks
unfolding restore_bytes free_stack
load_stack fuel a s = in_stack a (free_stack fuel a (with_stack (s.contexts a) s))

abbrev pub load_saved : ℕ → ℕ → Option (Bool × Stacks) → Option (Bool × Stacks)
load_saved fuel a none = none
load_saved fuel a (some (false, s)) = some (false, s)
load_saved fuel a (some (true, s)) = elim (load_stack fuel a s) [
  | none ↦ none
  | some s' ↦ some (true, s')
]

-- whether the coroutine `a` has the stack afterwards
unfoldable pub cr_prepare : ℕ → ℕ → Stacks → Option (Bool × Stacks)
unfolding save_stack load_stack
cr_prepare fuel a s = elim s.cr_in_stack [
  | none ↦ load_saved fuel a (some (true, s))
  | some b ↦ if b == a then some (true, s) else load_saved fuel a (save_stack fuel b s)
]

unfoldable pub cr_clean : ℕ → ℕ → Stacks → Option Stacks
cr_clean fuel a s =
    let left : Option ℕ = elim s.cr_in_stack [
      | none ↦ none
      | some b ↦ if b == a then none else some b
    ] in
    elim (mem_free fuel (s.contexts a).stack (s.contexts a).stack_size s.heap) [
      | none ↦ none
      | some heap ↦ some (record s {
        cr_in_stack = left;
        heap = heap;
        blocks = forget_block (s.contexts a).stack s.blocks;
      })
    ]

abbrev pub backed_up : ℕ → InFlight → GeneratorService → ℕ → Option ℕ → ℕ → GeneratorService
backed_up next_outseqno i service p stack size = record service {
  in_flight_infos =
      record i { next_outseqno = next_outseqno; infos = context p stack size }
      ∷ service.in_flight_infos;
}

-- The stack of a new context: none when it would be empty, and the context is freed when there is no room.
unfoldable pub backup_stack : ℕ → ℕ → ℕ → ℕ → Allocator → Option (Option (Option ℕ) × Allocator)
backup_stack fuel context_size p size heap =
    if size == 0 then some (some none, heap) else elim (mem_alloc fuel size heap) [
      | none ↦ none
      | some (none, heap') ↦ elim (mem_free fuel (some p) context_size heap') [
        | none ↦ none
        | some heap'' ↦ some (none, heap'')
      ]
      | some (some q, heap') ↦ some (some (some q), heap')
    ]

-- `context_backup` of a service whose coroutine uses `sp` bytes: the service with the new segment in
-- front, or `none` when there is no room.
unfoldable pub context_backup :
    ℕ
    → Sizes
    → ℕ
    → GeneratorService
    → ℕ
    → InFlight
    → Allocator
    → Option (Option GeneratorService × Allocator)
unfolding backup_stack
context_backup fuel z sp service next_outseqno i heap = elim (mem_alloc fuel z.context_size heap) [
  | none ↦ none
  | some (none, heap') ↦ some (none, heap')
  | some (some p, heap') ↦ elim (backup_stack fuel z.context_size p (u16 sp) heap') [
    | none ↦ none
    | some (none, heap'') ↦ some (none, heap'')
    | some (some stack, heap'') ↦
        some (some (backed_up next_outseqno i service p stack (u16 sp)), heap'')
  ]
]
