-- ===== src/Memory/Free.antt =====
-- `mem_free` inserts a span in its place and joins it to the free spans that it touches.
pub mod Place
pub use Place.{merge, insert, Clear}
use smews.Base.{
  ℕ, zero, suc, ◌+◌, ◌*◌, ◌≤◌, ◌<◌, ◌^◌, ◌⊎◌, inl, inr, ◌≡◌, ◌≢◌, refl, List, [], ◌∷◌, arith,
  Option, none, some, length, ltb, ◌==◌, if◌then◌else◌, Bool-cases, false, ap, sub16, ◌∙◌, u16,
  ltb→lt, le→not_ltb, lt→ltb, sym,
}
use smews.Memory.{
  Bloc, Cells, Allocator, write, chain_free_blocs, find_around, put_bloc, free_words, mem_free,
  in_words,
}
use smews.Memory.Chain.{
  Span, span, start, Chain, Outside, Holds, Apart-le, start-le, end-le-start, Outside-before,
  write_self, write-ne, Chain-write, length-add-start-le,
}
use smews.Memory.Alloc.{in_words_lem}
use smews.Memory.Free.Place.{
  around, find_around-around, chain-ne, Chain-merge, placed, put_bloc-first, put_bloc-behind,
  placed-ne, merge-cons, placed-Chain, NotIn,
}

-- What it does to free `x` behind the free span `b0`.
record FreedBehind (words : ℕ) (b0 x : Span) (bs : List Span) (s r : Allocator) : Type 0 where
  first : r.first_free ≡ s.first_free
  chain : Chain words r.cells (merge b0 (insert x bs))
  same : (y : ℕ) → Outside words (b0 ∷ bs) y → NotIn x y → r.cells y ≡ s.cells y

-- where no span of `bs` starts before `x`
pub insert-front :
    (words : ℕ) (x : Span) (bs : List Span) → x.addr ≤ start words bs → insert x bs ≡ merge x bs
insert-front words x [] h = refl
insert-front words x (b ∷ bs) h = rw (le→not_ltb b.addr x.addr h)

around-front :
    (words t : ℕ) (prev : Option ℕ) (bs : List Span)
    → t ≤ start words bs
    → around words t prev bs ≡ (prev, start words bs)
around-front words t prev [] h = refl
around-front words t prev (b ∷ bs) h = rw (le→not_ltb b.addr t h)

module _ (words : ℕ) (small : words < 2 ^ 16) (x : Span) (pos : 0 < x.size) where
  -- `Chain-merge` at what freeing `x` has made of the spans behind `b`
  Chain-merge_cons :
      (m : Cells) (b d : Span) (ds bs : List Span)
      → bs ≡ d ∷ ds
      → d.addr ≡ x.addr
      → Chain words m bs
      → (m b.addr).size ≡ b.size
      → 0 < b.size
      → b.addr + b.size ≤ x.addr
      → Chain words (chain_free_blocs b.addr x.addr m) (merge b bs)
  Chain-merge_cons m b d ds bs e at c es bpos le =
      rw (e, ← at) (Chain-merge words small m b d ds (rw e at c) es bpos (omega arith))

  FreedBehind-front :
      (s : Allocator) (b0 : Span) (bs : List Span)
      → Chain words s.cells (b0 ∷ bs)
      → b0.addr + b0.size ≤ x.addr
      → x.addr + x.size ≤ start words bs
      → FreedBehind words b0 x bs s (put_bloc x.size (some b0.addr) (start words bs) x.addr s)
  FreedBehind-front s b0 bs c le fit =
      let (d, ds, e, at) = merge-cons x bs in
      rw (put_bloc-behind x.size b0.addr x.addr (start words bs) s) (record {
        first = refl;
        chain = rw (insert-front words x bs (omega arith)) (
            Chain-merge_cons (placed x.size x.addr (start words bs) s.cells) b0 d ds (merge x bs) e
              at (placed-Chain words small s.cells x bs c.4 pos fit)
              (ap (λ (q : Bloc). q.size) (placed-ne x.size x.addr _ s.cells b0.addr (omega arith))
                ∙ c.2)
              c.0 le);
        same = λ y o n.
            chain-ne b0.addr x.addr _ y (omega arith)
            ∙ placed-ne x.size x.addr _ s.cells y (omega arith);
      })

  FreedBehind-skip :
      (s : Allocator) (b0 b : Span) (bs : List Span) (r : Allocator)
      → Chain words s.cells (b0 ∷ b ∷ bs)
      → b.addr < x.addr
      → FreedBehind words b x bs s r
      → FreedBehind words b0 x (b ∷ bs) s r
  FreedBehind-skip s b0 b bs r c h f =
      let (d, ds, e, at) = merge-cons b (insert x bs) in
      let kept : r.cells b0.addr ≡ s.cells b0.addr =
        f.same b0.addr (Outside-before words s.cells (b ∷ bs) b0.addr c.4 (omega arith))
          (inl (omega arith)) in
      record {
        first = f.first;
        chain =
            rw (lt→ltb b.addr x.addr h, e, apart (b0.addr + b0.size) d.addr (omega arith))
              (
                c.0,
                omega arith,
                ap (λ (q : Bloc). q.size) kept ∙ c.2,
                ap (λ (q : Bloc). q.to_next + b0.addr) kept ∙ c.3 ∙ sym at,
                rw e at f.chain,
              );
        same = λ y o n. f.same y o.1 n;
      }
    where
      apart : (a c : ℕ) → a < c → (a == c) ≡ false
      apart a c h = ground arith

  FreedBehind-insert :
      (s : Allocator) (b0 : Span) (bs : List Span)
      → Chain words s.cells (b0 ∷ bs)
      → b0.addr + b0.size ≤ x.addr
      → Clear words x bs
      → FreedBehind words b0 x bs s (
          put_bloc x.size
            (around words x.addr (some b0.addr) bs).0
            (around words x.addr (some b0.addr) bs).1
            x.addr
            s)
  FreedBehind-insert s b0 [] c le cl = FreedBehind-front s b0 [] c le cl
  FreedBehind-insert s b0 (b ∷ bs) c le cl = elim (Bool-cases (ltb b.addr x.addr)) [
    | inl less ↦
        let lt : b.addr < x.addr = ltb→lt b.addr x.addr less in
        let past : b.addr + b.size ≤ x.addr = omega arith in
        rw less (FreedBehind-skip s b0 b bs _ c lt (FreedBehind-insert s b bs c.4 past cl.1))
    | inr more ↦
        let front : x.addr ≤ b.addr = ground arith in
        rw more (FreedBehind-front s b0 (b ∷ bs) c le (omega arith))
  ]

-- The outcome of freeing `x`: its words have joined the free spans, and nothing else has changed.
pub record Freed (words : ℕ) (x : Span) (bs : List Span) (s r : Allocator) : Type 0 where
  pub holds : Holds words r (insert x bs)
  pub same : (y : ℕ) → Outside words bs y → NotIn x y → r.cells y ≡ s.cells y

module _ (words : ℕ) (x : Span) (pos : 0 < x.size) (s : Allocator) where
  Freed-front :
      (bs : List Span)
      → Holds words s bs
      → x.addr + x.size ≤ start words bs
      → Freed words x bs s (put_bloc x.size none (start words bs) x.addr s)
  Freed-front bs h fit =
      let (d, ds, e, at) = merge-cons x bs in
      rw (put_bloc-first x.size x.addr (start words bs) s) (record {
        holds = rw (insert-front words x bs (omega arith)) (record {
          small = h.small;
          first = rw e (sym at);
          chain = placed-Chain words h.small s.cells x bs h.chain pos fit;
        });
        same = λ y o n. placed-ne x.size x.addr _ s.cells y (omega arith);
      })

  Freed-insert :
      (bs : List Span)
      → Holds words s bs
      → Clear words x bs
      → Freed words x bs s
          (put_bloc x.size (around words x.addr none bs).0 (around words x.addr none bs).1 x.addr s)
  Freed-insert [] h cl = Freed-front [] h cl
  Freed-insert (b ∷ bs) h cl = elim (Bool-cases (ltb b.addr x.addr)) [
    | inl less ↦
        let lt : b.addr < x.addr = ltb→lt b.addr x.addr less in
        let past : b.addr + b.size ≤ x.addr = omega arith in
        let f = FreedBehind-insert words h.small x pos s b bs h.chain past cl.1 in
        let (d, ds, e, at) = merge-cons b (insert x bs) in
        rw less (record {
          holds = rw less (record {
            small = h.small;
            first = f.first ∙ h.first ∙ (rw e (sym at));
            chain = f.chain;
          });
          same = f.same;
        })
    | inr more ↦
        let front : x.addr ≤ b.addr = ground arith in rw more (Freed-front (b ∷ bs) h (omega arith))
  ]

mem_free-words :
    (fuel p size : ℕ) (s : Allocator)
    → 0 < size
    → mem_free fuel (some p) size s ≡ free_words fuel p (in_words size) s
unfolding mem_free
mem_free-words fuel p size s h = ground arith

free_words-around :
    (words fuel p n : ℕ) (s : Allocator) (bs : List Span)
    → length bs < fuel
    → p ≤ words
    → Holds words s bs
    → free_words fuel p n s
      ≡ some (put_bloc n (around words p none bs).0 (around words p none bs).1 p s)
unfolding free_words
free_words-around words fuel p n s bs f le h =
    rw
      (
        free_words,
        find_around-around words p fuel s.cells none s.first_free bs f le h.first h.chain,
      )
      refl

-- For a block of 1 to 65532 bytes, `n` words when rounded up, that lies in the buffer and overlaps
-- no free span, and with more fuel than the buffer has words, `mem_free` returns. The links then
-- stand for the free spans with the block inserted in order and joined to those that it touches,
-- and every word outside these and before the end of the buffer is unchanged.
pub mem_free-insert :
    (words fuel p size n : ℕ) (s : Allocator) (bs : List Span)
    → Holds words s bs
    → words < fuel
    → 0 < size
    → size ≤ 4 * n
    → 4 * n < size + 4
    → n < 2 ^ 14
    → Clear words (span p n) bs
    → (r : Allocator) × (mem_free fuel (some p) size s ≡ some r) × Freed words (span p n) bs s r
mem_free-insert words fuel p size n s bs h f pos l u small cl =
    let room : p + n ≤ words = Clear-le (span p n) bs cl in
    let few = length-add-start-le words s.cells bs h.chain in
    (
      put_bloc n (around words p none bs).0 (around words p none bs).1 p s,
      mem_free-words fuel p size s pos
          ∙ ap (λ k. free_words fuel p k s) (in_words_lem size n (omega arith) l u small)
          ∙ free_words-around words fuel p n s bs (omega arith) (omega arith) h,
      Freed-insert words (span p n) (omega arith) s bs h cl,
    )
  where
    Clear-le : (x : Span) (bs : List Span) → Clear words x bs → x.addr + x.size ≤ words
    Clear-le x [] cl = cl
    Clear-le x (b ∷ bs) cl = Clear-le x bs cl.1
