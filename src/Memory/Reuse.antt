-- ===== src/Memory/Reuse.antt =====
-- Allocating and freeing together, and the memory that the monitoring functions count.
use smews.Base.{
  ℕ, zero, suc, ◌+◌, ◌-◌, ◌*◌, ◌≤◌, ◌<◌, ◌^◌, inl, inr, ◌≡◌, ◌≢◌, refl, List, [], ◌∷◌, arith,
  Option, some, length, ltb, ◌==◌, if◌then◌else◌, max, ==_refl, Bool-cases, false, ap, ◌∙◌, u16,
  ltb→lt, lt→ltb,
}
use smews.Memory.{
  Cells, Allocator, mem_alloc, mem_free, mem_reset, sum_free, max_free, get_free_mem,
  get_max_free_mem,
}
use smews.Memory.Chain.{
  Span, span, total, largest, start, Apart, Chain, Holds, end-le-start, length-add-start-le,
  write-ne,
}
use smews.Memory.Alloc.{first_fit, first_fit-skip, mem_alloc-first_fit}
use smews.Memory.Free.{insert-front, merge, insert, Clear, mem_free-insert}

sum_free-total :
    (words fuel : ℕ) (m : Cells) (p sum : ℕ) (bs : List Span)
    → length bs < fuel
    → p ≡ start words bs
    → Chain words m bs
    → sum_free fuel m p sum ≡ some ((sum + total bs) * 4)
unfolding sum_free
sum_free-total words zero m p sum bs f e c = absurd (omega arith)
sum_free-total words (suc fuel) m p sum [] f e c = ground arith
sum_free-total words (suc fuel) m p sum (b ∷ bs) f e c = ground (
  arith,
  end-le-start words m b bs c.1,
  sum_free-total words fuel m (p + (m p).to_next) (sum + (m p).size) bs,
)

max_free-largest :
    (words fuel : ℕ) (m : Cells) (p most : ℕ) (bs : List Span)
    → length bs < fuel
    → p ≡ start words bs
    → Chain words m bs
    → max_free fuel m p most ≡ some (max most (largest bs) * 4)
unfolding max_free
max_free-largest words zero m p most bs f e c = absurd (omega arith)
max_free-largest words (suc fuel) m p most [] f e c = ground arith
max_free-largest words (suc fuel) m p most (b ∷ bs) f e c = ground (
  arith,
  end-le-start words m b bs c.1,
  max_free-largest words fuel m (p + (m p).to_next)
      (if ltb most (m p).size then (m p).size else most) bs,
)

-- With more fuel than the buffer has words, `get_free_mem` returns the bytes in the free spans and
-- `get_max_free_mem` those in the largest of them.
pub get_free_mem-total :
    (words fuel : ℕ) (s : Allocator) (bs : List Span)
    → Holds words s bs
    → words < fuel
    → (get_free_mem fuel s ≡ some (total bs * 4))
      × (get_max_free_mem fuel s ≡ some (largest bs * 4))
unfolding get_free_mem get_max_free_mem
get_free_mem-total words fuel s bs h f =
    let few = length-add-start-le words s.cells bs h.chain in
    (
      sum_free-total words fuel s.cells s.first_free 0 bs (omega arith) h.first h.chain
          ∙ ap some (omega arith),
      max_free-largest words fuel s.cells s.first_free 0 bs (omega arith) h.first h.chain
          ∙ ap some (omega arith),
    )

module _ (words : ℕ) (s : Allocator) where
  mem_reset-cell : (mem_reset words s).cells 0 ≡ record { size = u16 words; to_next = u16 words }
  unfolding mem_reset
  mem_reset-cell = refl

  mem_reset-ne : (x : ℕ) → x ≢ 0 → (mem_reset words s).cells x ≡ s.cells x
  unfolding mem_reset
  mem_reset-ne x ne = write-ne s.cells 0 _ x ne

  mem_reset-first : (mem_reset words s).first_free ≡ 0
  unfolding mem_reset
  mem_reset-first = refl

-- After a reset of a buffer of 1 to 65535 words, whose last word is zero, all of it is one free span.
mem_reset-Holds :
    (words : ℕ) (s : Allocator)
    → 0 < words
    → words < 2 ^ 16
    → (s.cells words).size ≡ 0
    → (s.cells words).to_next ≡ 0
    → Holds words (mem_reset words s) (span 0 words ∷ [])
mem_reset-Holds words s pos small z z' = record {
  small = small;
  first = mem_reset-first words s;
  chain = (
    pos,
    omega arith,
    rw (mem_reset-cell words s) (omega arith),
    rw (mem_reset-cell words s) (omega arith),
    rw (mem_reset-ne words s words (omega arith)) (z, z'),
  );
}

merge-Apart :
    (words : ℕ) (b : Span) (bs : List Span) → Apart words (b.addr + b.size) bs → merge b bs ≡ b ∷ bs
merge-Apart words b [] h = refl
merge-Apart words b (c ∷ cs) h = ground arith

-- A block taken by first fit: where it lies, and what putting it back gives.
pub record Fits (words n a : ℕ) (bs rest : List Span) : Type 0 where
  pub clear : Clear words (span a n) rest
  after : start words bs ≤ a
  later : start words bs ≤ start words rest
  pub sum : total rest + n ≡ total bs
  back : insert (span a n) rest ≡ bs

Clear-behind :
    (words : ℕ) (m : Cells) (x : Span) (bs : List Span)
    → Chain words m bs
    → x.addr + x.size ≤ start words bs
    → Clear words x bs
Clear-behind words m x [] c h = h
Clear-behind words m x (b ∷ bs) c h =
    (inl h, Clear-behind words m x bs c.4 (omega (arith, end-le-start words m b bs c.1)))

module _ (words n : ℕ) (m : Cells) (pos : 0 < n) where
  Fits-here :
      (a : ℕ) (b : Span) (bs rest : List Span)
      → Chain words m (b ∷ bs)
      → first_fit n (b ∷ bs) ≡ some (a, rest)
      → ltb b.size n ≡ false
      → Fits words n a (b ∷ bs) rest
  Fits-here a b bs rest c e ok = elim (Bool-cases (b.size == n)) [
    | inl same ↦
        let ea : a ≡ b.addr = ground arith in
        let er : rest ≡ bs = ground arith in
        let en : b.size ≡ n = ground arith in
        rw (ea, er, ← en)
          (record {
            clear = Clear-behind words m b bs c.4 (end-le-start words m b bs c.1);
            after = omega arith;
            later = omega (arith, end-le-start words m b bs c.1);
            sum = omega arith;
            back =
                insert-front words b bs (omega (arith, end-le-start words m b bs c.1))
                ∙ merge-Apart words b bs c.1;
          })
    | inr more ↦
        let ea : a ≡ b.addr = ground arith in
        let er : rest ≡ span (b.addr + n) (b.size - n) ∷ bs = ground arith in
        let fits : n < b.size = ground arith in
        rw (ea, er)
          (record {
            clear = (
              inl (omega arith),
              Clear-behind words m (span b.addr n) bs c.4
                  (omega (arith, end-le-start words m b bs c.1)),
            );
            after = omega arith;
            later = omega arith;
            sum = omega arith;
            back =
                insert-front words (span b.addr n) (span (b.addr + n) (b.size - n) ∷ bs)
                  (omega arith)
                ∙ rw (==_refl (b.addr + n)) (ap (λ k. span b.addr k ∷ bs) (omega arith));
          })
  ]

  Fits-skip :
      (a : ℕ) (b : Span) (bs rest : List Span)
      → Chain words m (b ∷ bs)
      → Fits words n a bs rest
      → Fits words n a (b ∷ bs) (b ∷ rest)
  Fits-skip a b bs rest c f =
      let past = end-le-start words m b bs c.1 in
      record {
        clear = (inr (omega (arith, past, f.after)), f.clear);
        after = omega (arith, past, f.after);
        later = omega arith;
        sum = omega (arith, f.sum);
        back =
            rw (lt→ltb b.addr a (omega (arith, past, f.after)), f.back)
              (merge-Apart words b bs c.1);
      }

  pub first_fit-Fits :
      (a : ℕ) (bs rest : List Span)
      → Chain words m bs
      → first_fit n bs ≡ some (a, rest)
      → Fits words n a bs rest
  first_fit-Fits a [] rest c e = cc
  first_fit-Fits a (b ∷ bs) rest c e = elim (Bool-cases (ltb b.size n)) [
    | inl less ↦
        let (rest', found_rest, is) = first_fit-skip n b bs a rest (ltb→lt b.size n less) e in
        rw is (Fits-skip a b bs rest' c (first_fit-Fits a bs rest' c.4 found_rest))
    | inr ok ↦ Fits-here a b bs rest c e ok
  ]

-- A request of 1 to 65532 bytes that first fit can meet: `mem_alloc` takes `n` words at some `p`, so
-- that `get_free_mem` falls by 4 * n, and freeing the block again with the same size leaves
-- links that stand for exactly the free spans of before.
pub mem_free-mem_alloc :
    (words fuel size n p : ℕ) (s : Allocator) (bs rest : List Span)
    → Holds words s bs
    → words < fuel
    → 0 < size
    → size ≤ 4 * n
    → 4 * n < size + 4
    → n < 2 ^ 14
    → first_fit n bs ≡ some (p, rest)
    → (s' s'' : Allocator) × (mem_alloc fuel size s ≡ some (some p, s'))
      × (get_free_mem fuel s' ≡ some ((total bs - n) * 4))
      × (mem_free fuel (some p) size s' ≡ some s'')
      × Holds words s'' bs
mem_free-mem_alloc words fuel size n p s bs rest h f pos l u small e =
    let (r, returns, taken) =
      rw e at (mem_alloc-first_fit words fuel size n s bs h f pos l u small) in
    let fit = first_fit-Fits words n s.cells (omega arith) p bs rest h.chain e in
    let (s'', freed, back) =
      mem_free-insert words fuel p size n r.1 rest taken.holds f pos l u small fit.clear in
    (
      r.1,
      s'',
      returns ∙ ap (λ (q : Option ℕ). some (q, r.1)) taken.result,
      (get_free_mem-total words fuel r.1 rest taken.holds f).0
          ∙ ap (λ k. some (k * 4)) (omega (arith, fit.sum)),
      freed,
      rw fit.back at back.holds,
    )
