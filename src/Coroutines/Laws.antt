-- ===== src/Coroutines/Laws.antt =====
-- The bytes of a coroutine's stack, while another coroutine has the shared one.
use smews.Base.{ℕ, ◌-◌, ◌<◌, ◌≡◌, ◌≢◌, Option, none, some, u16}
use smews.Memory.{Allocator}
use smews.Connections.Ring.{put}
use smews.Coroutines.{Context, Stacks, backup_bytes, with_stack, forget_block}

abbrev pub saved_in : ℕ → ℕ → Allocator → Stacks → Stacks
saved_in b p heap s = record s {
  heap = heap;
  contexts =
      put s.contexts b
        (record (s.contexts b) { stack = some p; stack_size = u16 (s.contexts b).sp });
  blocks =
      put s.blocks p
        (backup_bytes (s.contexts b).sp (u16 (s.contexts b).sp) s.shared_stack (s.blocks p));
}

abbrev pub loaded_in : ℕ → Context → Allocator → Stacks → Stacks
loaded_in a c heap s = record (with_stack c s) {
  cr_in_stack = some a;
  heap = heap;
  contexts = put s.contexts a (record c { stack = none });
  blocks = forget_block c.stack s.blocks;
}

-- no block at `p`
abbrev pub NotAt : ℕ → Option ℕ → Type 0
NotAt p none = Unit {0}
NotAt p (some q) = p ≢ q

-- `b` has the shared stack again, with its bytes, and those of `a` are in the block at `q`.
pub record IsBack (a b q : ℕ) (s t s' : Stacks) : Type 0 where
  pub owner : s'.cr_in_stack ≡ some b
  pub restored : (d : ℕ) → d < (s.contexts b).sp → s'.shared_stack d ≡ s.shared_stack d
  pub kept :
      (i : ℕ) → i < (t.contexts a).sp → s'.blocks q i ≡ t.shared_stack ((t.contexts a).sp - 1 - i)
  pub others : (x : ℕ) → x ≢ a → x ≢ b → s'.contexts x ≡ s.contexts x

-- what the coroutine `a` may do while it runs: write to the shared stack, and move its stack pointer
abbrev pub ran : ℕ → (ℕ → Option ℕ) → ℕ → Stacks → Stacks
ran a bytes sp s = record s {
  shared_stack = bytes;
  contexts = put s.contexts a (record (s.contexts a) { sp = sp });
}

module _ (fuel a b p q sp : ℕ) (s : Stacks) (bytes : ℕ → Option ℕ)
    (heap heap1 heap2 heap3 : Allocator) (differ : b ≢ a) (apart : p ≢ q) where
  -- `b` is saved at `p`, `a` has the stack
  abbrev away : Stacks
  away = loaded_in a (s.contexts a) heap1 (saved_in b p heap s)

  abbrev later : Stacks
  later = ran a bytes sp away

  abbrev context_of_b : Context
  context_of_b = record (s.contexts b) { stack = some p; stack_size = u16 (s.contexts b).sp }

  abbrev back : Stacks
  back = loaded_in b context_of_b heap3 (saved_in a q heap2 later)
