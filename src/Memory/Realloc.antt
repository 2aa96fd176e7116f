-- ===== src/Memory/Realloc.antt =====
-- `mem_realloc` of core/memory.c. The bytes of the buffer are kept by address, 4 times that of their word; the
-- allocator's links are written into them as it is called.
use mathlib.Core.Path.{subst}
use smews.Base.{
  ℕ, zero, suc, ◌+◌, ◌*◌, ◌/◌, ◌%◌, ◌^◌, ◌≡◌, ◌≤◌, ◌<◌, ◌⊎◌, refl, arith, ap, ◌∙◌, Option, none,
  some, List, [], ◌∷◌, ltb, not, ◌&&◌, ==_refl, ◌==◌, if◌then◌else◌, u16, Bool-cases, inl, inr,
  ne-==, ==_iff, ltb→lt, not_ltb→le,
}
use smews.Memory.{Bloc, Cells, Allocator, mem_alloc, mem_free}
use smews.Memory.Chain.{Span, span, Holds, Outside}
use smews.Memory.Alloc.{first_fit, first_fit-skip, Allocated, mem_alloc-first_fit}
use smews.Memory.Free.{Clear, insert, mem_free-insert}
use smews.Memory.Free.Place.{NotIn}
use smews.Memory.Reuse.{first_fit-Fits}

abbrev pub set_byte : (ℕ → ℕ) → ℕ → ℕ → ℕ → ℕ
set_byte bytes a v x = if x == a then v else bytes x

-- the loop of `mem_realloc`, `n` bytes from its end
unfoldable pub copy_bytes : ℕ → ℕ → ℕ → (ℕ → ℕ) → ℕ → ℕ
copy_bytes zero from to bytes = bytes
copy_bytes (suc n) from to bytes = copy_bytes n (suc from) (suc to) (set_byte bytes to (bytes from))

-- The bytes when a call of the allocator has turned the links `old` into `new`: a word whose link it has changed
-- holds that link, and `layout` gives the bytes of a `struct free_bloc_s`, as the compiler lays it out.
unfoldable pub relinked : (Bloc → ℕ → ℕ) → Cells → Cells → (ℕ → ℕ) → ℕ → ℕ
relinked layout old new bytes x =
    if (old (x / 4)).size == (new (x / 4)).size && (old (x / 4)).to_next == (new (x / 4)).to_next
    then bytes x
    else layout (new (x / 4)) (x % 4)

-- `mem_free`, which writes a link over the first word of the block as well
unfoldable pub free_block :
    ℕ
    → (Bloc → ℕ → ℕ)
    → Option ℕ
    → Option ℕ
    → ℕ
    → Allocator
    → (ℕ → ℕ)
    → Option (Option ℕ × Allocator × (ℕ → ℕ))
unfolding relinked
free_block fuel layout r p size s bytes = elim (mem_free fuel p size s) [
  | none ↦ none
  | some s' ↦
      (let after = relinked layout s.cells s'.cells bytes in
        elim p [
          | none ↦ some (r, s', after)
          | some a ↦ some (
            r,
            s',
            λ x. if not (size == 0) && x / 4 == a then layout (s'.cells a) (x % 4) else after x,
          )
        ])
]

-- `copying data`; `none` is a byte that is read through NULL.
unfoldable pub copy_from : Option ℕ → ℕ → ℕ → (ℕ → ℕ) → Option (ℕ → ℕ)
unfolding copy_bytes
copy_from none zero q bytes = some bytes
copy_from none (suc n) q bytes = none
copy_from (some p) size q bytes = some (copy_bytes size (4 * p) (4 * q) bytes)

abbrev pub moved :
    ℕ
    → (Bloc → ℕ → ℕ)
    → Option ℕ
    → ℕ
    → Allocator
    → (ℕ → ℕ)
    → Option (Option ℕ × Allocator)
    → Option (Option ℕ × Allocator × (ℕ → ℕ))
moved fuel layout p size s bytes none = none
moved fuel layout p size s bytes (some (none, s')) = free_block fuel layout none p size s' bytes
moved fuel layout p size s bytes (some (some q, s')) =
    elim (copy_from p size q (relinked layout s.cells s'.cells bytes)) [
      | none ↦ none
      | some bytes' ↦ free_block fuel layout (some q) p size s' bytes'
    ]

-- The new block is allocated, then the bytes are copied, then the old block, which may be NULL, is freed.
unfoldable pub mem_realloc :
    ℕ
    → (Bloc → ℕ → ℕ)
    → Option ℕ
    → ℕ
    → ℕ
    → Allocator
    → (ℕ → ℕ)
    → Option (Option ℕ × Allocator × (ℕ → ℕ))
unfolding copy_from free_block relinked
mem_realloc fuel layout p size size_to_add s bytes =
    moved fuel layout p size s bytes (mem_alloc fuel (u16 (size + size_to_add)) s)

relinked-same :
    (layout : Bloc → ℕ → ℕ) (old new : Cells) (bytes : ℕ → ℕ) (x w : ℕ)
    → x / 4 ≡ w
    → new w ≡ old w
    → relinked layout old new bytes x ≡ bytes x
unfolding relinked
relinked-same layout old new bytes x w at e =
    rw (at, e, ==_refl (old w).size, ==_refl (old w).to_next) refl

-- The words of a block that overlaps no free span are outside these.
Clear-Outside :
    (words : ℕ) (x : Span) (bs : List Span) (y : ℕ)
    → Clear words x bs
    → x.addr ≤ y
    → y < x.addr + x.size
    → Outside words bs y
Clear-Outside words x [] y c l u = omega arith
Clear-Outside words x (b ∷ bs) y c l u = (omega (arith, c.0), Clear-Outside words x bs y c.1 l u)

copy_bytes-below :
    (n from to : ℕ) (bytes : ℕ → ℕ) (x : ℕ) → x < to → copy_bytes n from to bytes x ≡ bytes x
unfolding copy_bytes
copy_bytes-below zero from to bytes x l = refl
copy_bytes-below (suc n) from to bytes x l =
    copy_bytes-below n (suc from) (suc to) (set_byte bytes to (bytes from)) x (omega arith)
    ∙ rw (ne-== x to (omega arith)) refl

-- Between blocks that do not overlap, every byte is copied.
copy_bytes-copied :
    (n from to : ℕ) (bytes : ℕ → ℕ) (i : ℕ)
    → i < n
    → (from + n ≤ to) ⊎ (to + n ≤ from)
    → copy_bytes n from to bytes (to + i) ≡ bytes (from + i)
unfolding copy_bytes
copy_bytes-copied zero from to bytes i l apart = absurd (omega arith)
copy_bytes-copied (suc n) from to bytes zero l apart =
    copy_bytes-below n (suc from) (suc to) (set_byte bytes to (bytes from)) (to + 0) (omega arith)
    ∙ rw ((==_iff (to + 0) to).1 (omega arith)) (ap bytes (omega arith))
copy_bytes-copied (suc n) from to bytes (suc i) l apart =
    ap (copy_bytes n (suc from) (suc to) (set_byte bytes to (bytes from))) (omega arith)
    ∙ copy_bytes-copied n (suc from) (suc to) (set_byte bytes to (bytes from)) i (omega arith)
        (omega arith)
    ∙ rw (ne-== (suc from + i) to (omega arith)) (ap bytes (omega arith))

abbrev pub IsApart : ℕ → ℕ → Span → Option (ℕ × List Span) → Type 0
IsApart words m x none = Unit {0}
IsApart words m x (some (q, rest)) = Clear words x rest × ((x.addr + x.size ≤ q) ⊎ (q + m ≤ x.addr))

-- what an allocation takes overlaps no block outside the free spans
pub Clear-first_fit :
    (words m : ℕ) (x : Span) (bs : List Span) (q : ℕ) (rest : List Span)
    → first_fit m bs ≡ some (q, rest)
    → Clear words x bs
    → Clear words x rest × ((x.addr + x.size ≤ q) ⊎ (q + m ≤ x.addr))
Clear-first_fit words m x [] q rest e c = cc
Clear-first_fit words m x (b ∷ bs) q rest e c = elim (Bool-cases (ltb b.size m)) [
  | inl less ↦
      let (rest', found, is) = first_fit-skip m b bs q rest (ltb→lt b.size m less) e in
      let (clear, apart) = Clear-first_fit words m x bs q rest' found c.1 in
      rw is ((c.0, clear), apart)
  | inr ok ↦ elim (Bool-cases (b.size == m)) [
    | inl same ↦
        let size = (==_iff b.size m).0 same in
        subst (IsApart words m x) (rw (ok, same) at e) (c.1, omega (arith, c.0))
    | inr more ↦ subst (IsApart words m x) (rw (ok, more) at e) (
      (omega (arith, c.0, not_ltb→le b.size m ok), c.1),
      omega (arith, c.0, not_ltb→le b.size m ok),
    )
  ]
]

-- What `mem_realloc` leaves of a block of `size` bytes in the `n` words from `p` on, by what first fit finds; `i` is the
-- index of one of the bytes.
abbrev pub Reallocated :
    ℕ
    → ℕ
    → ℕ
    → ℕ
    → List Span
    → (ℕ → ℕ)
    → ℕ
    → Option (ℕ × List Span)
    → Option (Option ℕ × Allocator × (ℕ → ℕ))
    → Type 0
Reallocated words p n size bs bytes i none r =
    (s' : Allocator) × (bytes' : ℕ → ℕ) × (r ≡ some (none, s', bytes'))
    × Holds words s' (insert (span p n) bs)
Reallocated words p n size bs bytes i (some (q, rest)) r =
    (s' : Allocator) × (bytes' : ℕ → ℕ) × (r ≡ some (some q, s', bytes'))
    × Holds words s' (insert (span p n) rest)
    × (bytes' (4 * q + i) ≡ bytes (4 * p + i))

module _ (words fuel p size n : ℕ) (layout : Bloc → ℕ → ℕ) (f : words < fuel) (pos : 0 < size)
    (l : size ≤ 4 * n) (u : 4 * n < size + 4) (small : n < 2 ^ 14) where
  -- Freeing the block changes no byte of another one.
  free_block-frame :
      (r : Option ℕ) (s : Allocator) (bs : List Span) (bytes : ℕ → ℕ)
      → Holds words s bs
      → Clear words (span p n) bs
      → (s' : Allocator) × (bytes' : ℕ → ℕ) × (free_block fuel layout r (some p) size s bytes
          ≡ some (r, s', bytes'))
        × Holds words s' (insert (span p n) bs)
        × ((x w : ℕ) → x / 4 ≡ w → Outside words bs w → NotIn (span p n) w → bytes' x ≡ bytes x)
  unfolding free_block
  free_block-frame r s bs bytes h clear =
      let (s', frees, freed) = mem_free-insert words fuel p size n s bs h f pos l u small clear in
      (
        s',
        λ x.
            if not (size == 0) && x / 4 == p
            then layout (s'.cells p) (x % 4)
            else relinked layout s.cells s'.cells bytes x,
        rw (free_block, frees) refl,
        freed.holds,
        λ x w at out apart.
            rw (ne-== (x / 4) p (omega (arith, at, apart, l, pos)), ne-== size 0 (omega arith))
              (relinked-same layout s.cells s'.cells bytes x w at (freed.same w out apart)),
      )

  -- For a block of 1 to 65532 bytes in the buffer that overlaps no free span, and a new size of up to 65532 bytes, with
  -- more fuel than words, `mem_realloc` returns, whatever the layout of a link is. If first fit finds room, the
  -- result is there, with all bytes of the block, and the free spans are what first fit leaves with the old
  -- block among them; otherwise it is NULL, and the old block is free.
  pub mem_realloc-first_fit :
      (add m : ℕ) (s : Allocator) (bs : List Span) (bytes : ℕ → ℕ) (i : ℕ)
      → Holds words s bs
      → size + add ≤ 4 * m
      → 4 * m < size + add + 4
      → m < 2 ^ 14
      → Clear words (span p n) bs
      → i < size
      → Reallocated words p n size bs bytes i
          (first_fit m bs)
          (mem_realloc fuel layout (some p) size add s bytes)
  unfolding mem_realloc copy_from
  mem_realloc-first_fit add m s bs bytes i h l' u' small' clear inside =
      by_fit (first_fit m bs) refl
        (mem_alloc-first_fit words fuel (size + add) m s bs h f (omega arith) l' u' small')
    where
      same_size : mem_alloc fuel (u16 (size + add)) s ≡ mem_alloc fuel (size + add) s
      same_size = ap (λ k. mem_alloc fuel k s) (omega arith)

      by_fit :
          (o : Option (ℕ × List Span))
          → first_fit m bs ≡ o
          → Allocated words bs s o (mem_alloc fuel (size + add) s)
          → Reallocated words p n size bs bytes i o
              (moved fuel layout (some p) size s bytes (mem_alloc fuel (u16 (size + add)) s))
      by_fit none e a =
          let (s', bytes', frees, holds, _) = free_block-frame none s bs bytes h clear in
          (s', bytes', ap (moved fuel layout (some p) size s bytes) (same_size ∙ a) ∙ frees, holds)
      by_fit (some (q, rest)) e a =
          let (r, returns, taken) = a in
          let (clear', apart) = Clear-first_fit words m (span p n) bs q rest e clear in
          let fit = first_fit-Fits words m s.cells (omega arith) q bs rest h.chain e in
          let linked = relinked layout s.cells r.1.cells bytes in
          let (s', bytes', frees, holds, others) =
            free_block-frame (some q) r.1 rest (copy_bytes size (4 * p) (4 * q) linked) taken.holds
              clear' in
          (
            s',
            bytes',
            ap (moved fuel layout (some p) size s bytes)
                  (same_size ∙ returns ∙ ap (λ (o : Option ℕ). some (o, r.1)) taken.result)
                ∙ frees,
            holds,
            others (4 * q + i) (q + i / 4) (omega arith)
                  (Clear-Outside words (span q m) rest (q + i / 4) fit.clear (omega arith)
                    (omega arith))
                  (omega (arith, apart))
                ∙ copy_bytes-copied size (4 * p) (4 * q) linked i inside (omega (arith, apart))
                ∙ relinked-same layout s.cells r.1.cells bytes (4 * p + i) (p + i / 4) (omega arith)
                    (taken.same (p + i / 4) (
                      Clear-Outside words (span p n) bs (p + i / 4) clear (omega arith)
                        (omega arith))),
          )
