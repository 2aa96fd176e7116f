-- ===== src/Memory/Chain.antt =====
-- What the free blocs of core/memory.c stand for: an ordered list of spans of words.
use smews.Base.{ℕ, ◌+◌, ◌≤◌, ◌<◌, ◌^◌, ◌⊎◌, ◌≡◌, ◌≢◌, List, [], ◌∷◌, arith, inl, length, max}
use smews.Memory.{Bloc, Cells, Allocator, write}

pub record Span : Type 0 where
  pub addr : ℕ
  pub size : ℕ

abbrev pub span : ℕ → ℕ → Span
span a n = record { addr = a; size = n }

-- the words that are free
abbrev pub total : List Span → ℕ
total [] = 0
total (b ∷ bs) = b.size + total bs

abbrev pub largest : List Span → ℕ
largest [] = 0
largest (b ∷ bs) = max b.size (largest bs)

-- where the first span starts; the end of the buffer if there is none
abbrev pub start : ℕ → List Span → ℕ
start words [] = words
start words (b ∷ bs) = b.addr

-- Two free spans do not touch: they would have been made one.
abbrev pub Apart : ℕ → ℕ → List Span → Type 0
Apart words e [] = e ≤ words
Apart words e (c ∷ bs) = e < c.addr

-- From the first span the links lead through the spans, in order, to the empty last word.
abbrev pub Chain : ℕ → Cells → List Span → Type 0
Chain words m [] = (m words).size ≡ 0 × (m words).to_next ≡ 0
Chain words m (b ∷ bs) =
    (0 < b.size)
    × Apart words (b.addr + b.size) bs
    × ((m b.addr).size ≡ b.size)
    × ((m b.addr).to_next + b.addr ≡ start words bs)
    × Chain words m bs

-- No word of a span is `x`, and neither is the last word of the buffer.
abbrev pub Outside : ℕ → List Span → ℕ → Type 0
Outside words [] x = x ≢ words
Outside words (b ∷ bs) x = ((x < b.addr) ⊎ (b.addr + b.size ≤ x)) × Outside words bs x

pub record Holds (words : ℕ) (s : Allocator) (bs : List Span) : Type 0 where
  pub small : words < 2 ^ 16
  pub first : s.first_free ≡ start words bs
  pub chain : Chain words s.cells bs

module _ (words : ℕ) where
  pub Apart-le : (e e' : ℕ) (bs : List Span) → e ≤ e' → Apart words e' bs → Apart words e bs
  Apart-le e e' [] h a = omega arith
  Apart-le e e' (b ∷ bs) h a = omega arith

  pub end-le-start :
      (m : Cells) (b : Span) (bs : List Span)
      → Apart words (b.addr + b.size) bs
      → b.addr + b.size ≤ start words bs
  end-le-start m b [] a = a
  end-le-start m b (c ∷ bs) a = omega arith

  pub start-le : (m : Cells) (bs : List Span) → Chain words m bs → start words bs ≤ words
  start-le m [] c = omega arith
  start-le m (b ∷ bs) c = omega (arith, start-le m bs c.4, end-le-start m b bs c.1)

  pub Outside-before :
      (m : Cells) (bs : List Span) (x : ℕ)
      → Chain words m bs
      → x < start words bs
      → Outside words bs x
  Outside-before m [] x c h = omega arith
  Outside-before m (b ∷ bs) x c h =
      (inl h, Outside-before m bs x c.4 (omega (arith, end-le-start m b bs c.1)))

  -- A chain lives in the first words of its spans and the last word.
  pub Chain-frame :
      (m m' : Cells) (bs : List Span)
      → ((x : ℕ) → start words bs ≤ x → m' x ≡ m x)
      → Chain words m bs
      → Chain words m' bs
  Chain-frame m m' [] same c = ground (arith, same words)
  Chain-frame m m' (b ∷ bs) same c = ground (
    arith,
    same b.addr,
    Chain-frame m m' bs (λ x h. same x (omega (arith, end-le-start m b bs c.1))) c.4,
  )

module _ (m : Cells) (a : ℕ) (b : Bloc) where
  pub write_self : write m a b a ≡ b
  unfolding write
  write_self = ground arith

  pub write-ne : (x : ℕ) → x ≢ a → write m a b x ≡ m x
  unfolding write
  write-ne x ne = ground arith

  -- A write before a chain leaves it as it was.
  pub Chain-write :
      (words : ℕ) (bs : List Span)
      → a < start words bs
      → Chain words m bs
      → Chain words (write m a b) bs
  Chain-write words bs h c =
      Chain-frame words m (write m a b) bs (λ x g. write-ne x (omega arith)) c

-- There are no more free spans than words, so `words + 1` rounds of a loop suffice.
pub length-add-start-le :
    (words : ℕ) (m : Cells) (bs : List Span) → Chain words m bs → length bs + start words bs ≤ words
length-add-start-le words m [] c = omega arith
length-add-start-le words m (b ∷ bs) c =
    omega (arith, length-add-start-le words m bs c.4, end-le-start words m b bs c.1)
