-- ===== src/Memory.antt =====
-- The allocator of core/memory.c. `alloc_buffer` is read as blocs of one 32-bit word, and a
-- pointer into it is the index of its word. The loops run on fuel; `none` is a loop that does
-- not end.
pub mod Chain
pub mod Alloc
pub mod Free
pub mod Reuse
pub mod Realloc
mod Tests
use smews.Base.{
  ℕ, zero, suc, ◌+◌, ◌-◌, ◌*◌, ◌/◌, ◌%◌, ◌<◌, Bool, not, ◌&&◌, Option, none, some, ltb, leb, ◌==◌,
  if◌then◌else◌, u16, sub16,
}

-- `struct free_bloc_s`
pub record Bloc : Type 0 where
  pub size : ℕ
  pub to_next : ℕ

abbrev pub Cells : Type 0
Cells = ℕ → Bloc

-- `alloc_buffer` and `first_free`
pub record Allocator : Type 0 where
  pub cells : Cells
  pub first_free : ℕ

unfoldable pub write : Cells → ℕ → Bloc → Cells
write m a b x = if x == a then b else m x

-- `memory allocation internals work with 32 bits granularity`; `size` is a `uint16_t`
unfoldable pub in_words : ℕ → ℕ
in_words size = (if ltb 0 (size % 4) then u16 (size + 4) else size) / 4

-- Frees all of a buffer of `words` words, `ALLOC_SIZE / 4`, fewer than 2 ^ 16. The word behind them
-- is the last of the buffer and stays zero.
unfoldable pub mem_reset : ℕ → Allocator → Allocator
unfolding write
mem_reset words s = record {
  cells = write s.cells 0 (record { size = u16 words; to_next = u16 words });
  first_free = 0;
}

-- the loop of `get_free_mem`
unfoldable pub sum_free : ℕ → Cells → ℕ → ℕ → Option ℕ
sum_free zero m curr sum = none
sum_free (suc fuel) m curr sum =
    let rest = sum_free fuel m (curr + (m curr).to_next) (sum + (m curr).size) in
    if (m curr).to_next == 0 then some (sum * 4) else rest

-- the loop of `get_max_free_mem`
unfoldable pub max_free : ℕ → Cells → ℕ → ℕ → Option ℕ
max_free zero m curr most = none
max_free (suc fuel) m curr most =
    let rest =
      max_free fuel m (curr + (m curr).to_next)
        (if ltb most (m curr).size then (m curr).size else most) in
    if (m curr).to_next == 0 then some (most * 4) else rest

unfoldable pub get_free_mem : ℕ → Allocator → Option ℕ
unfolding sum_free
get_free_mem fuel s = sum_free fuel s.cells s.first_free 0

unfoldable pub get_max_free_mem : ℕ → Allocator → Option ℕ
unfolding max_free
get_max_free_mem fuel s = max_free fuel s.cells s.first_free 0

-- `look for a free bloc`: `prev_free` and `curr_free` after the loop of `mem_alloc`
unfoldable pub find_free : ℕ → Cells → ℕ → Option ℕ → ℕ → Option (Option ℕ × ℕ)
find_free zero m size prev curr = none
find_free (suc fuel) m size prev curr =
    let rest = find_free fuel m size (some curr) (curr + (m curr).to_next) in
    if not ((m curr).size == 0) && ltb (m curr).size size then rest else some (prev, curr)

-- the link to the bloc behind `prev` (`first_free` if there is none) goes `by` words further
unfoldable pub advance : Option ℕ → ℕ → ℕ → Allocator → Allocator
unfolding write
advance none curr by s = record s { first_free = curr + by }
advance (some p) curr by s = record s {
  cells = write s.cells p (record (s.cells p) { to_next = u16 ((s.cells p).to_next + by) });
}

-- `update the free blocs chain`
unfoldable pub take_bloc : ℕ → Option ℕ → ℕ → Allocator → Option ℕ × Allocator
unfolding advance
take_bloc size prev curr s =
    let b = s.cells curr in
    if b.size == size
    then (some curr, advance prev curr b.to_next s)
    else if leb size b.size
    then (
      some curr,
      (let s' = advance prev curr size s in
          record s' {
            cells =
                write s'.cells (curr + size)
                  (record { size = sub16 b.size size; to_next = sub16 b.to_next size });
          }),
    )
    else (none, s)

-- what `mem_alloc` does once `size` counts words
unfoldable pub alloc_words : ℕ → ℕ → Allocator → Option (Option ℕ × Allocator)
unfolding find_free take_bloc
alloc_words fuel n s = elim (find_free fuel s.cells n none s.first_free) [
  | none ↦ none
  | some (prev, curr) ↦ some (take_bloc n prev curr s)
]

unfoldable pub mem_alloc : ℕ → ℕ → Allocator → Option (Option ℕ × Allocator)
unfolding in_words alloc_words
mem_alloc fuel size s = alloc_words fuel (in_words size) s

unfoldable pub chain_free_blocs : ℕ → ℕ → Cells → Cells
unfolding write
chain_free_blocs b1 b2 m =
    if b1 + (m b1).size == b2
    then write m b1 (record {
      size = u16 ((m b1).size + (m b2).size);
      to_next = u16 ((m b2).to_next + (m b1).size);
    })
    else write m b1 (record (m b1) { to_next = sub16 b2 b1 })

-- `look for a free blocs around ptr`
unfoldable pub find_around : ℕ → Cells → ℕ → Option ℕ → ℕ → Option (Option ℕ × ℕ)
find_around zero m to_free prev curr = none
find_around (suc fuel) m to_free prev curr =
    let rest = find_around fuel m to_free (some curr) (curr + (m curr).to_next) in
    if ltb curr to_free then rest else some (prev, curr)

-- the bloc before `to_free`, if there is one, is chained to it
unfoldable pub link_before : Option ℕ → ℕ → Allocator → Allocator
unfolding chain_free_blocs
link_before none to_free s = record s { first_free = to_free }
link_before (some p) to_free s = record s { cells = chain_free_blocs p to_free s.cells }

-- what `mem_free` does behind its loop
unfoldable pub put_bloc : ℕ → Option ℕ → ℕ → ℕ → Allocator → Allocator
unfolding write chain_free_blocs link_before
put_bloc n prev curr to_free s =
    let m = write s.cells to_free (record { size = n; to_next = sub16 curr to_free }) in
    let m' = if (m curr).size == 0 then m else chain_free_blocs to_free curr m in
    link_before prev to_free (record s { cells = m' })

unfoldable pub free_words : ℕ → ℕ → ℕ → Allocator → Option Allocator
unfolding find_around put_bloc
free_words fuel to_free n s = elim (find_around fuel s.cells to_free none s.first_free) [
  | none ↦ none
  | some (prev, curr) ↦ some (put_bloc n prev curr to_free s)
]

-- `ptr` is `none` for `NULL`.
unfoldable pub mem_free : ℕ → Option ℕ → ℕ → Allocator → Option Allocator
unfolding in_words free_words
mem_free fuel none size s = some s
mem_free fuel (some p) size s = if size == 0 then some s else free_words fuel p (in_words size) s
