-- ===== src/Memory/Tests.antt =====
-- A buffer of eight words with two free spans, and the theorems of the allocator on it.
use smews.Base.{ℕ, ◌≡◌, refl, List, [], ◌∷◌, arith, Option, none, some, ◌==◌, if◌then◌else◌}
use smews.Memory.{Cells, Allocator, mem_alloc, mem_free, get_free_mem}
use smews.Memory.Chain.{Span, span, Holds}
use smews.Memory.Alloc.{Allocated, mem_alloc-first_fit}
use smews.Memory.Free.{Freed, mem_free-insert}
use smews.Memory.Reuse.{mem_free-mem_alloc}
use smews.Memory.Realloc.{mem_realloc, Reallocated, mem_realloc-first_fit}

-- Words 1 and 2 are free, and words 5, 6 and 7; the word behind the last is the empty bloc.
abbrev cells : Cells
cells x =
    if x == 1
    then record { size = 2; to_next = 4 }
    else if x == 5
    then record { size = 3; to_next = 3 }
    else record { size = 0; to_next = 0 }

abbrev heap : Allocator
heap = record { cells = cells; first_free = 1 }

abbrev spans : List Span
spans = span 1 2 ∷ span 5 3 ∷ []

heap-Holds : Holds 8 heap spans
heap-Holds = omega arith

-- What a run leaves in the first word and the counters.
abbrev summary : Option (Option ℕ × Allocator) → Option (Option ℕ × ℕ × Option ℕ)
summary none = none
summary (some (p, s)) = some (p, s.first_free, get_free_mem 9 s)

alloc_nine_bytes : summary (mem_alloc 9 9 heap) ≡ some (some 5, 1, some 8)
unfolding mem_alloc get_free_mem
alloc_nine_bytes = refl

alloc_too_much : summary (mem_alloc 9 13 heap) ≡ some (none, 1, some 20)
unfolding mem_alloc get_free_mem
alloc_too_much = refl

mem_alloc-first_fit_example : Allocated 8 spans heap (some (5, span 1 2 ∷ [])) (mem_alloc 9 9 heap)
mem_alloc-first_fit_example =
    mem_alloc-first_fit 8 9 9 3 heap spans heap-Holds (omega arith) (omega arith) (omega arith)
      (omega arith) (omega arith)

-- The block at words 3 and 4 closes the gap between the two free spans.
mem_free-insert_example :
    (r : Allocator) × (mem_free 9 (some 3) 7 heap ≡ some r) × Freed 8 (span 3 2) spans heap r
mem_free-insert_example =
    mem_free-insert 8 9 3 7 2 heap spans heap-Holds (omega arith) (omega arith) (omega arith)
      (omega arith) (omega arith) (omega arith)

mem_free-mem_alloc_example :
    (s' s'' : Allocator) × (mem_alloc 9 9 heap ≡ some (some 5, s'))
    × (get_free_mem 9 s' ≡ some 8)
    × (mem_free 9 (some 5) 9 s' ≡ some s'')
    × Holds 8 s'' spans
mem_free-mem_alloc_example =
    mem_free-mem_alloc 8 9 9 3 5 heap spans (span 1 2 ∷ []) heap-Holds (omega arith) (omega arith)
      (omega arith) (omega arith) (omega arith) refl

mem_realloc-first_fit_example :
    Reallocated 8 3 2 7 spans
      (λ a. a)
      5
      (some (5, span 1 2 ∷ []))
      (mem_realloc 9 (λ b k. if k == 0 then b.size else 0) (some 3) 7 5 heap (λ a. a))
mem_realloc-first_fit_example =
    mem_realloc-first_fit 8 9 3 7 2 (λ b k. if k == 0 then b.size else 0) (omega arith)
      (omega arith) (omega arith) (omega arith) (omega arith) 5 3 heap spans (λ a. a) 5 heap-Holds
      (omega arith) (omega arith) (omega arith) (omega arith) (omega arith)
