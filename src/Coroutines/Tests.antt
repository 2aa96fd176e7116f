-- ===== src/Coroutines/Tests.antt =====
-- Two coroutines, the first of which has the shared stack and the second a block, and the theorem on them.
use smews.Base.{◌+◌, none, some, ◌==◌, if◌then◌else◌}
use smews.Memory.{Cells}
use smews.Coroutines.{Stacks, cr_active}

abbrev cells : Cells
cells x = if x == 0 then record { size = 15; to_next = 20 } else record { size = 0; to_next = 0 }

-- of 20 words, the last five are the block of the coroutine 2
abbrev two : Stacks
two = record {
  cr_in_stack = some 1;
  contexts = λ x.
      if x == 1
      then record { status = cr_active; stack = none; stack_size = 0; sp = 17 }
      else record { status = cr_active; stack = some 15; stack_size = 18; sp = 18 };
  heap = record { cells = cells; first_free = 0 };
  shared_stack = λ d. some (d + 100);
  blocks = λ p i. if p == 15 then some i else none;
}
