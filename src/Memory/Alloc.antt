-- ===== src/Memory/Alloc.antt =====
-- `mem_alloc` is first fit over the free spans.
pub mod Behind
pub use Behind.{first_fit, first_fit-skip}
use smews.Base.{
  ℕ, zero, suc, ◌+◌, ◌-◌, ◌*◌, ◌≤◌, ◌<◌, ◌^◌, inl, inr, ◌≡◌, refl, List, [], ◌∷◌, arith, Option,
  none, some, length, ltb, ◌==◌, if◌then◌else◌, Bool-cases, false, ap, sub16, ltb→lt, ◌∙◌, u16,
}
use smews.Memory.{
  Bloc, Cells, Allocator, write, find_free, take_bloc, alloc_words, mem_alloc, in_words,
}
use smews.Memory.Chain.{
  Span, span, start, Chain, Outside, Holds, Apart-le, start-le, end-le-start, Outside-before,
  write_self, write-ne, Chain-write, length-add-start-le,
}
use smews.Memory.Alloc.Behind.{
  behind, found, find_free-found, TakenBehind, cut, bounds, TakenBehind-fit,
}

-- The outcome of an allocation that takes the words from `a` on and leaves the spans `rest` free.
pub record Taken (words : ℕ) (bs : List Span) (a : ℕ) (rest : List Span) (s : Allocator)
    (r : Option ℕ × Allocator) : Type 0 where
  pub result : r.0 ≡ some a
  pub holds : Holds words r.1 rest
  pub same : (x : ℕ) → Outside words bs x → r.1.cells x ≡ s.cells x

-- the same three cases, where no bloc stands before `curr`
module _ (n curr : ℕ) (s : Allocator) where
  take_first-whole :
      (s.cells curr).size ≡ n
      → take_bloc n none curr s
        ≡ (some curr, record s { first_free = curr + (s.cells curr).to_next })
  unfolding take_bloc
  take_first-whole e = ground arith

  take_first-part :
      n < (s.cells curr).size
      → take_bloc n none curr s ≡ (
        some curr,
        record { cells = write s.cells (curr + n) (cut n curr curr s); first_free = curr + n },
      )
  unfolding take_bloc
  take_first-part e = ground arith

module _ (words n : ℕ) (pos : 0 < n) (s : Allocator) where
  Taken-here :
      (b : Span) (bs : List Span) (a : ℕ) (rest : List Span)
      → Holds words s (b ∷ bs)
      → first_fit n (b ∷ bs) ≡ some (a, rest)
      → ltb b.size n ≡ false
      → Taken words (b ∷ bs) a rest s (take_bloc n none b.addr s)
  Taken-here b bs a rest h e ok = elim (Bool-cases (b.size == n)) [
    | inl same ↦
        let ea : a ≡ b.addr = ground arith in
        let er : rest ≡ bs = ground arith in
        rw (take_first-whole n b.addr s (ground arith), ea, er)
          (record {
            result = refl;
            holds = record { small = h.small; first = omega arith; chain = h.chain.4 };
            same = λ x o. refl;
          })
    | inr more ↦
        let ea : a ≡ b.addr = ground arith in
        let er : rest ≡ span (b.addr + n) (b.size - n) ∷ bs = ground arith in
        let fits : n < b.size = ground arith in
        rw (take_first-part n b.addr s (ground arith), ea, er)
          (record {
            result = refl;
            holds = record { small = h.small; first = refl; chain = rest_chain fits };
            same = λ x o. write-ne s.cells (b.addr + n) _ x (omega arith);
          })
  ]
    where
      bounds' : (b.addr + b.size ≤ start words bs) × (start words bs ≤ words)
      bounds' = (end-le-start words s.cells b bs h.chain.1, start-le words s.cells bs h.chain.4)

      rest_chain :
          n < b.size
          → Chain words
              (write s.cells (b.addr + n) (cut n b.addr b.addr s))
              (span (b.addr + n) (b.size - n) ∷ bs)
      rest_chain fits = (
        omega arith,
        Apart-le words _ (b.addr + b.size) bs (omega arith) h.chain.1,
        rw write_self (omega (arith, bounds', h.small)),
        rw write_self (omega (arith, bounds', h.small)),
        Chain-write s.cells _ _ words bs (omega (arith, bounds')) h.chain.4,
      )

  Taken-fit :
      (bs : List Span) (a : ℕ) (rest : List Span)
      → Holds words s bs
      → first_fit n bs ≡ some (a, rest)
      → Taken words bs a rest s (take_bloc n (found words n none bs).0 (found words n none bs).1 s)
  Taken-fit [] a rest h e = cc
  Taken-fit (b ∷ bs) a rest h e = elim (Bool-cases (ltb b.size n)) [
    | inl less ↦
        let (rest', found_rest, is) = first_fit-skip n b bs a rest (ltb→lt b.size n less) e in
        let t = TakenBehind-fit words n h.small pos s b bs a rest' h.chain found_rest in
        rw (less, is)
          (record {
            result = t.result;
            holds = record { small = h.small; first = t.first ∙ h.first; chain = t.chain };
            same = t.same;
          })
    | inr ok ↦ rw ok (Taken-here b bs a rest h e ok)
  ]

  -- `alloc_words` takes the words that first fit says.
  pub alloc_words-Taken :
      (fuel : ℕ) (bs : List Span) (a : ℕ) (rest : List Span)
      → words < fuel
      → Holds words s bs
      → first_fit n bs ≡ some (a, rest)
      → (r : Option ℕ × Allocator) × (alloc_words fuel n s ≡ some r) × Taken words bs a rest s r
  unfolding alloc_words
  alloc_words-Taken fuel bs a rest f h e = (
    take_bloc n (found words n none bs).0 (found words n none bs).1 s,
    rw
        (
          alloc_words,
          find_free-found words n fuel s.cells none s.first_free bs
              (omega (arith, length-add-start-le words s.cells bs h.chain)) h.first h.chain,
        )
        refl,
    Taken-fit bs a rest h e,
  )

  found-none :
      (bs : List Span) (prev : Option ℕ) → first_fit n bs ≡ none → (found words n prev bs).1 ≡ words
  found-none [] prev e = refl
  found-none (b ∷ bs) prev e = elim (Bool-cases (ltb b.size n)) [
    | inl less ↦ rw less (found-none bs (some b.addr) (skip (first_fit n bs) (rw less at e)))
    | inr ok ↦ absurd (ground arith)
  ]
    where
      skip : (o : Option (ℕ × List Span)) → behind b o ≡ none → o ≡ none
      skip none q = refl
      skip (some (a, rest)) q = absurd (ground arith)

  alloc_words-full :
      (fuel : ℕ) (bs : List Span)
      → words < fuel
      → Holds words s bs
      → first_fit n bs ≡ none
      → alloc_words fuel n s ≡ some (none, s)
  unfolding alloc_words take_bloc
  alloc_words-full fuel bs f h e =
      rw
        (
          alloc_words,
          find_free-found words n fuel s.cells none s.first_free bs
              (omega (arith, length-add-start-le words s.cells bs h.chain)) h.first h.chain,
          found-none bs none e,
        )
        (ground (arith, end_empty bs h.chain))
    where
      end_empty : (bs : List Span) → Chain words s.cells bs → (s.cells words).size ≡ 0
      end_empty [] c = c.0
      end_empty (b ∷ bs) c = end_empty bs c.4

-- What a request of `n` words comes to, by the answer of first fit.
abbrev pub Allocated :
    ℕ → List Span → Allocator → Option (ℕ × List Span) → Option (Option ℕ × Allocator) → Type 0
Allocated words bs s none r = r ≡ some (none, s)
Allocated words bs s (some (a, rest)) r =
    (r' : Option ℕ × Allocator) × (r ≡ some r') × Taken words bs a rest s r'

pub in_words_lem :
    (size n : ℕ) → size < 2 ^ 16 → size ≤ 4 * n → 4 * n < size + 4 → n < 2 ^ 14 → in_words size ≡ n
unfolding in_words
in_words_lem size n h l u small = ground arith

-- For a request of 1 to 65532 bytes, `n` words when rounded up, and more fuel than the buffer has
-- words, `mem_alloc` returns. If no free span has `n` words it returns NULL and changes nothing.
-- Otherwise it takes the first `n` words of the first span that has so many, the links stand for
-- the spans that stay free, and every word outside the free spans and before the end of the
-- buffer is unchanged.
pub mem_alloc-first_fit :
    (words fuel size n : ℕ) (s : Allocator) (bs : List Span)
    → Holds words s bs
    → words < fuel
    → 0 < size
    → size ≤ 4 * n
    → 4 * n < size + 4
    → n < 2 ^ 14
    → Allocated words bs s (first_fit n bs) (mem_alloc fuel size s)
unfolding mem_alloc
mem_alloc-first_fit words fuel size n s bs h f pos l u small =
    rw (mem_alloc, in_words_lem size n (omega arith) l u small) (go (first_fit n bs) refl)
  where
    go :
        (o : Option (ℕ × List Span))
        → first_fit n bs ≡ o
        → Allocated words bs s o (alloc_words fuel n s)
    go none e = alloc_words-full words n (omega arith) s fuel bs f h e
    go (some (a, rest)) e = alloc_words-Taken words n (omega arith) s fuel bs a rest f h e
