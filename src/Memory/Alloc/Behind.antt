-- ===== src/Memory/Alloc/Behind.antt =====
-- First fit, and `mem_alloc` where a free bloc stands before the one that it takes.
use smews.Base.{
  ℕ, zero, suc, ◌+◌, ◌-◌, ◌≤◌, ◌<◌, ◌^◌, inl, inr, ◌≡◌, refl, List, [], ◌∷◌, arith, Option, none,
  some, length, ltb, ◌==◌, if◌then◌else◌, Bool-cases, false, ap, sub16, ltb→lt, ◌∙◌, u16,
}
use smews.Memory.{Bloc, Cells, Allocator, write, find_free, take_bloc}
use smews.Memory.Chain.{
  Span, span, start, Chain, Outside, Apart-le, start-le, end-le-start, Outside-before, write_self,
  write-ne, Chain-write,
}

-- An answer from the spans behind `b`, with `b` still free.
abbrev pub behind : Span → Option (ℕ × List Span) → Option (ℕ × List Span)
behind b none = none
behind b (some (a, rest)) = some (a, b ∷ rest)

-- the first span that is large enough, and the spans that stay free
abbrev pub first_fit : ℕ → List Span → Option (ℕ × List Span)
first_fit n [] = none
first_fit n (b ∷ bs) =
    if ltb b.size n
    then behind b (first_fit n bs)
    else if b.size == n
    then some (b.addr, bs)
    else some (b.addr, span (b.addr + n) (b.size - n) ∷ bs)

-- where the loop of `mem_alloc` stops
abbrev pub found : ℕ → ℕ → Option ℕ → List Span → Option ℕ × ℕ
found words n prev [] = (prev, words)
found words n prev (b ∷ bs) =
    if ltb b.size n then found words n (some b.addr) bs else (prev, b.addr)

module _ (words n : ℕ) where
  pub find_free-found :
      (fuel : ℕ) (m : Cells) (prev : Option ℕ) (p : ℕ) (bs : List Span)
      → length bs < fuel
      → p ≡ start words bs
      → Chain words m bs
      → find_free fuel m n prev p ≡ some (found words n prev bs)
  unfolding find_free
  find_free-found zero m prev p bs f e c = absurd (omega arith)
  find_free-found (suc fuel) m prev p [] f e c = ground arith
  find_free-found (suc fuel) m prev p (b ∷ bs) f e c =
      ground (arith, find_free-found fuel m (some p) (p + (m p).to_next) bs)

-- What one allocation does behind the free span `b0`: it takes the words at `a`, and leaves `b0`
-- and the spans `rest`.
pub record TakenBehind (words : ℕ) (b0 : Span) (bs : List Span) (a : ℕ) (rest : List Span)
    (s : Allocator) (r : Option ℕ × Allocator) : Type 0 where
  pub result : r.0 ≡ some a
  pub first : r.1.first_free ≡ s.first_free
  pub chain : Chain words r.1.cells (b0 ∷ rest)
  pub same : (x : ℕ) → Outside words (b0 ∷ bs) x → r.1.cells x ≡ s.cells x

pub first_fit-skip :
    (n : ℕ) (b : Span) (bs : List Span) (a : ℕ) (rest : List Span)
    → b.size < n
    → first_fit n (b ∷ bs) ≡ some (a, rest)
    → (rest' : List Span) × (first_fit n bs ≡ some (a, rest')) × (rest ≡ b ∷ rest')
first_fit-skip n b bs a rest h e = go (first_fit n bs) refl
  where
    go :
        (o : Option (ℕ × List Span))
        → first_fit n bs ≡ o
        → (rest' : List Span) × (first_fit n bs ≡ some (a, rest')) × (rest ≡ b ∷ rest')
    go none q = absurd (ground arith)
    go (some (a', rest')) q = (rest', ground arith, ground arith)

-- `take_bloc` behind a bloc at `p`, in each of its cases.
module _ (n p curr : ℕ) (s : Allocator) where
  abbrev relinked : ℕ → Cells
  relinked by =
      write s.cells p (record { size = (s.cells p).size; to_next = u16 ((s.cells p).to_next + by) })

  take_bloc-whole :
      (s.cells curr).size ≡ n
      → take_bloc n (some p) curr s
        ≡ (some curr, record s { cells = relinked (s.cells curr).to_next })
  unfolding take_bloc
  take_bloc-whole e = ground arith

  abbrev pub cut : Bloc
  cut = record { size = sub16 (s.cells curr).size n; to_next = sub16 (s.cells curr).to_next n }

  take_bloc-part :
      n < (s.cells curr).size
      → take_bloc n (some p) curr s
        ≡ (some curr, record s { cells = write (relinked n) (curr + n) cut })
  unfolding take_bloc
  take_bloc-part e = ground arith

module _ (words n : ℕ) (small : words < 2 ^ 16) (pos : 0 < n) where
  module _ (s : Allocator) (b0 b : Span) (bs : List Span)
      (c : Chain words s.cells (b0 ∷ b ∷ bs)) where
    pub bounds : (b.addr + b.size ≤ start words bs) × (start words bs ≤ words)
    bounds = (end-le-start words s.cells b bs c.4.1, start-le words s.cells bs c.4.4)

    abbrev linked : ℕ → Cells
    linked = relinked n b0.addr b.addr s

    whole-Chain : Chain words (linked (s.cells b.addr).to_next) (b0 ∷ bs)
    whole-Chain = (
      c.0,
      Apart-le words _ (b.addr + b.size) bs (omega arith) c.4.1,
      rw write_self (omega arith),
      rw write_self (omega (arith, bounds)),
      Chain-write s.cells b0.addr _ words bs (omega (arith, bounds)) c.4.4,
    )

    abbrev tail : Bloc
    tail = cut n b0.addr b.addr s

    part-Chain :
        n < b.size
        → Chain words
            (write (linked n) (b.addr + n) tail)
            (b0 ∷ span (b.addr + n) (b.size - n) ∷ bs)
    part-Chain h = (
      c.0,
      omega arith,
      rw (kept, write_self) (omega arith),
      rw (kept, write_self) (omega (arith, bounds)),
      (
        omega arith,
        Apart-le words _ (b.addr + b.size) bs (omega arith) c.4.1,
        rw write_self (omega (arith, bounds)),
        rw write_self (omega (arith, bounds)),
        Chain-write _ _ _ words bs (omega (arith, bounds))
            (Chain-write s.cells b0.addr _ words bs (omega (arith, bounds)) c.4.4),
      ),
    )
      where
        kept : write (linked n) (b.addr + n) tail b0.addr ≡ linked n b0.addr
        kept = write-ne (linked n) (b.addr + n) tail b0.addr (omega arith)

  Behind-here :
      (s : Allocator) (b0 b : Span) (bs : List Span) (a : ℕ) (rest : List Span)
      → Chain words s.cells (b0 ∷ b ∷ bs)
      → first_fit n (b ∷ bs) ≡ some (a, rest)
      → ltb b.size n ≡ false
      → TakenBehind words b0 (b ∷ bs) a rest s (take_bloc n (some b0.addr) b.addr s)
  Behind-here s b0 b bs a rest c e ok = elim (Bool-cases (b.size == n)) [
    | inl same ↦
        let ea : a ≡ b.addr = ground arith in
        let er : rest ≡ bs = ground arith in
        rw (take_bloc-whole n b0.addr b.addr s (ground arith), ea, er)
          (record {
            result = refl;
            first = refl;
            chain = whole-Chain s b0 b bs c;
            same = λ x o. write-ne s.cells b0.addr _ x (omega arith);
          })
    | inr more ↦
        let ea : a ≡ b.addr = ground arith in
        let er : rest ≡ span (b.addr + n) (b.size - n) ∷ bs = ground arith in
        let fits : n < b.size = ground arith in
        rw (take_bloc-part n b0.addr b.addr s (ground arith), ea, er)
          (record {
            result = refl;
            first = refl;
            chain = part-Chain s b0 b bs c fits;
            same = λ x o.
                write-ne _ (b.addr + n) _ x (omega arith)
                ∙ write-ne s.cells b0.addr _ x (omega arith);
          })
  ]

  -- An allocation further on keeps the span `b` and what leads to it.
  TakenBehind-skip :
      (s : Allocator) (b0 b : Span) (bs : List Span) (a : ℕ) (rest : List Span)
      (r : Option ℕ × Allocator)
      → Chain words s.cells (b0 ∷ b ∷ bs)
      → TakenBehind words b bs a rest s r
      → TakenBehind words b0 (b ∷ bs) a (b ∷ rest) s r
  TakenBehind-skip s b0 b bs a rest r c t = record {
    result = t.result;
    first = t.first;
    chain = (
      c.0,
      c.1,
      ap (λ (x : Bloc). x.size) kept ∙ c.2,
      ap (λ (x : Bloc). x.to_next + b0.addr) kept ∙ c.3,
      t.chain,
    );
    same = λ x o. t.same x o.1;
  }
    where
      kept : r.1.cells b0.addr ≡ s.cells b0.addr
      kept = t.same b0.addr (Outside-before words s.cells (b ∷ bs) b0.addr c.4 (omega arith))

  pub TakenBehind-fit :
      (s : Allocator) (b0 : Span) (bs : List Span) (a : ℕ) (rest : List Span)
      → Chain words s.cells (b0 ∷ bs)
      → first_fit n bs ≡ some (a, rest)
      → TakenBehind words b0 bs a rest s
          (take_bloc n (found words n (some b0.addr) bs).0 (found words n (some b0.addr) bs).1 s)
  TakenBehind-fit s b0 [] a rest c e = cc
  TakenBehind-fit s b0 (b ∷ bs) a rest c e = elim (Bool-cases (ltb b.size n)) [
    | inl less ↦
        let (rest', found_rest, is) = first_fit-skip n b bs a rest (ltb→lt b.size n less) e in
        rw (less, is)
          (TakenBehind-skip s b0 b bs a rest' _ c (TakenBehind-fit s b bs a rest' c.4 found_rest))
    | inr ok ↦ rw ok (Behind-here s b0 b bs a rest c e ok)
  ]
