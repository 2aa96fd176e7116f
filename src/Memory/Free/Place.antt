-- ===== src/Memory/Free/Place.antt =====
-- Where a block goes among the free spans, and what `put_bloc` writes for it.
use smews.Base.{
  ℕ, zero, suc, ◌+◌, ◌≤◌, ◌<◌, ◌^◌, ◌⊎◌, inl, inr, ◌≡◌, ◌≢◌, refl, List, [], ◌∷◌, arith, Option,
  none, some, length, ltb, ◌==◌, if◌then◌else◌, Bool-cases, false, sub16, ◌∙◌, u16,
}
use smews.Memory.{Cells, Allocator, write, chain_free_blocs, find_around, put_bloc}
use smews.Memory.Chain.{
  Span, span, start, Chain, Apart-le, start-le, end-le-start, write_self, write-ne, Chain-write,
}

-- A span in front of others; if it touches the first, the two are made one.
abbrev pub merge : Span → List Span → List Span
merge a [] = a ∷ []
merge a (c ∷ cs) =
    if a.addr + a.size == c.addr then span a.addr (a.size + c.size) ∷ cs else a ∷ c ∷ cs

abbrev pub insert : Span → List Span → List Span
insert x [] = x ∷ []
insert x (b ∷ bs) = if ltb b.addr x.addr then merge b (insert x bs) else merge x (b ∷ bs)

-- `x` is no part of the free spans, and of the buffer.
abbrev pub Clear : ℕ → Span → List Span → Type 0
Clear words x [] = x.addr + x.size ≤ words
Clear words x (b ∷ bs) =
    ((x.addr + x.size ≤ b.addr) ⊎ (b.addr + b.size ≤ x.addr)) × Clear words x bs

-- where the loop of `mem_free` stops
abbrev pub around : ℕ → ℕ → Option ℕ → List Span → Option ℕ × ℕ
around words t prev [] = (prev, words)
around words t prev (b ∷ bs) =
    if ltb b.addr t then around words t (some b.addr) bs else (prev, b.addr)

pub find_around-around :
    (words t fuel : ℕ) (m : Cells) (prev : Option ℕ) (p : ℕ) (bs : List Span)
    → length bs < fuel
    → t ≤ words
    → p ≡ start words bs
    → Chain words m bs
    → find_around fuel m t prev p ≡ some (around words t prev bs)
unfolding find_around
find_around-around words t zero m prev p bs f l e c = absurd (omega arith)
find_around-around words t (suc fuel) m prev p [] f l e c = ground arith
find_around-around words t (suc fuel) m prev p (b ∷ bs) f l e c =
    ground (arith, find_around-around words t fuel m (some p) (p + (m p).to_next) bs)

module _ (a b2 : ℕ) (m : Cells) where
  chain-touching :
      a + (m a).size ≡ b2
      → chain_free_blocs a b2 m
        ≡ write m a (record {
          size = u16 ((m a).size + (m b2).size);
          to_next = u16 ((m b2).to_next + (m a).size);
        })
  unfolding chain_free_blocs
  chain-touching e = ground arith

  chain-apart :
      a + (m a).size ≢ b2
      → chain_free_blocs a b2 m ≡ write m a (record { size = (m a).size; to_next = sub16 b2 a })
  unfolding chain_free_blocs
  chain-apart e = ground arith

  pub chain-ne : (x : ℕ) → x ≢ a → chain_free_blocs a b2 m x ≡ m x
  unfolding chain_free_blocs write
  chain-ne x ne = ground arith

module _ (words : ℕ) (small : words < 2 ^ 16) where
  -- `chain_free_blocs` puts a bloc in front of a chain.
  pub Chain-merge :
      (m : Cells) (b c : Span) (cs : List Span)
      → Chain words m (c ∷ cs)
      → (m b.addr).size ≡ b.size
      → 0 < b.size
      → b.addr + b.size ≤ c.addr
      → Chain words (chain_free_blocs b.addr c.addr m) (merge b (c ∷ cs))
  Chain-merge m b c cs ch e pos le = elim (Bool-cases (b.addr + b.size == c.addr)) [
    | inl t ↦
        let touch : b.addr + b.size ≡ c.addr = ground arith in
        rw (chain-touching b.addr c.addr m (rw e touch), t)
          (
            omega arith,
            Apart-le words _ (c.addr + c.size) cs (omega arith) ch.1,
            rw write_self (omega (arith, bounds)),
            rw write_self (omega (arith, bounds)),
            Chain-write m b.addr _ words cs (omega (arith, bounds)) ch.4,
          )
    | inr f ↦
        let gap : b.addr + b.size ≢ c.addr = ground arith in
        rw (chain-apart b.addr c.addr m (rw e gap), f)
          (
            pos,
            omega arith,
            rw write_self e,
            rw write_self (omega (arith, bounds)),
            Chain-write m b.addr _ words (c ∷ cs) (omega arith) ch,
          )
  ]
    where
      bounds : (c.addr + c.size ≤ start words cs) × (start words cs ≤ words)
      bounds = (end-le-start words m c cs ch.1, start-le words m cs ch.4)

-- the cells once the freed bloc is written and joined to the one behind it
abbrev pub placed : ℕ → ℕ → ℕ → Cells → Cells
placed n t curr m =
    let m' = write m t (record { size = n; to_next = sub16 curr t }) in
    if (m' curr).size == 0 then m' else chain_free_blocs t curr m'

pub put_bloc-first :
    (n t curr : ℕ) (s : Allocator)
    → put_bloc n none curr t s ≡ record { cells = placed n t curr s.cells; first_free = t }
unfolding put_bloc
put_bloc-first n t curr s = refl

pub put_bloc-behind :
    (n p t curr : ℕ) (s : Allocator)
    → put_bloc n (some p) curr t s
      ≡ record s { cells = chain_free_blocs p t (placed n t curr s.cells) }
unfolding put_bloc
put_bloc-behind n p t curr s = refl

pub placed-ne : (n t curr : ℕ) (m : Cells) (y : ℕ) → y ≢ t → placed n t curr m y ≡ m y
placed-ne n t curr m y ne =
    elim (Bool-cases (((write m t (record { size = n; to_next = sub16 curr t })) curr).size == 0)) [
      | inl z ↦ rw z (write-ne m t _ y ne)
      | inr z ↦ rw z (chain-ne t curr _ y ne ∙ write-ne m t _ y ne)
    ]

-- `merge` and `insert` give at least one span, and where the first starts.
pub merge-cons :
    (a : Span) (bs : List Span)
    → (c : Span) × (cs : List Span) × (merge a bs ≡ c ∷ cs) × (c.addr ≡ a.addr)
merge-cons a [] = (a, [], refl, refl)
merge-cons a (c ∷ cs) = elim (Bool-cases (a.addr + a.size == c.addr)) [
  | inl t ↦ (span a.addr (a.size + c.size), cs, rw t refl, refl)
  | inr f ↦ (a, c ∷ cs, rw f refl, refl)
]

module _ (words : ℕ) (small : words < 2 ^ 16) where
  pub placed-Chain :
      (m : Cells) (x : Span) (bs : List Span)
      → Chain words m bs
      → 0 < x.size
      → x.addr + x.size ≤ start words bs
      → Chain words (placed x.size x.addr (start words bs) m) (merge x bs)
  placed-Chain m x [] c pos le =
      rw ((write-ne m x.addr _ words (omega arith)), c.0)
        (
          pos,
          le,
          rw write_self refl,
          rw write_self (omega arith),
          rw (write-ne m x.addr _ words (omega arith)) c,
        )
  placed-Chain m x (b ∷ bs) c pos le =
      rw (keeps, nonempty)
        (Chain-merge words small _ x b bs (Chain-write m x.addr _ words (b ∷ bs) (omega arith) c)
          (rw write_self refl) pos le)
    where
      keeps :
          write m x.addr (record { size = x.size; to_next = sub16 b.addr x.addr }) b.addr ≡ m b.addr
      keeps = write-ne m x.addr _ b.addr (omega arith)

      nonempty : ((m b.addr).size == 0) ≡ false
      nonempty = ground arith

abbrev pub NotIn : Span → ℕ → Type 0
NotIn x y = (y < x.addr) ⊎ (x.addr + x.size ≤ y)
