-- ===== src/Service/Release.antt =====
-- Freeing several blocks that do not overlap.
use smews.Base.{
  ℕ, zero, suc, ◌+◌, ◌*◌, ◌≤◌, ◌<◌, ◌≡◌, ◌⊎◌, inl, inr, refl, arith, Option, none, some, List, [],
  ◌∷◌,
}
use smews.Memory.{Allocator, mem_free}
use smews.Memory.Chain.{Span, total, Holds}
use smews.Memory.Free.{merge, insert, Clear, mem_free-insert}
use smews.Service.{release}

-- two spans with no word in common
abbrev pub Disjoint : Span → Span → Type 0
Disjoint x y = (x.addr + x.size ≤ y.addr) ⊎ (y.addr + y.size ≤ x.addr)

abbrev pub DisjointAll : Span → List Span → Type 0
DisjointAll x [] = Unit {0}
DisjointAll x (y ∷ ys) = Disjoint x y × DisjointAll x ys

-- Blocks in use: clear of the free spans and of one another.
abbrev pub InUse : ℕ → List Span → List Span → Type 0
InUse words [] bs = Unit {0}
InUse words (x ∷ xs) bs = Clear words x bs × DisjointAll x xs × InUse words xs bs

-- the arguments of `mem_free` for these blocks
abbrev pub Blocks : List (Option ℕ × ℕ) → List Span → Type 0
Blocks [] [] = Unit {0}
Blocks [] (x ∷ xs) = ⊥
Blocks ((none, size) ∷ r) xs = Blocks r xs
Blocks ((some p, zero) ∷ r) xs = Blocks r xs
Blocks ((some p, suc k) ∷ r) [] = ⊥
Blocks ((some p, suc k) ∷ r) (x ∷ xs) =
    (p ≡ x.addr)
    × (suc k ≤ 4 * x.size)
    × (4 * x.size < suc k + 4)
    × (x.size < 2 * 8192)
    × Blocks r xs

abbrev pub insert_all : List Span → List Span → List Span
insert_all [] bs = bs
insert_all (x ∷ xs) bs = insert_all xs (insert x bs)

total-merge : (a : Span) (bs : List Span) → total (merge a bs) ≡ a.size + total bs
total-merge a [] = refl
total-merge a (c ∷ cs) = ground arith

total-insert : (x : Span) (bs : List Span) → total (insert x bs) ≡ x.size + total bs
total-insert x [] = refl
total-insert x (b ∷ bs) =
    ground (arith, total-merge b (insert x bs), total-merge x (b ∷ bs), total-insert x bs)

Clear-merge :
    (words : ℕ) (y a : Span) (bs : List Span)
    → 0 < y.size
    → Disjoint y a
    → Clear words y bs
    → Clear words y (merge a bs)
Clear-merge words y a [] pos d c = ground arith
Clear-merge words y a (b ∷ bs) pos d c = ground arith

Clear-insert :
    (words : ℕ) (y x : Span) (bs : List Span)
    → 0 < y.size
    → Disjoint y x
    → Clear words y bs
    → Clear words y (insert x bs)
Clear-insert words y x [] pos d c = (d, c)
Clear-insert words y x (b ∷ bs) pos d c = ground (
  arith,
  Clear-merge words y b (insert x bs),
  Clear-insert words y x bs pos d c.1,
  Clear-merge words y x (b ∷ bs) pos d c,
)

pub total-insert_all : (xs bs : List Span) → total (insert_all xs bs) ≡ total xs + total bs
total-insert_all [] bs = omega arith
total-insert_all (x ∷ xs) bs = omega (arith, total-insert_all xs (insert x bs), total-insert x bs)

abbrev pub AllPos : List Span → Type 0
AllPos [] = Unit {0}
AllPos (x ∷ xs) = (0 < x.size) × AllPos xs

Blocks-AllPos : (r : List (Option ℕ × ℕ)) (xs : List Span) → Blocks r xs → AllPos xs
Blocks-AllPos [] [] b = tt
Blocks-AllPos [] (x ∷ xs) b = absurd b
Blocks-AllPos ((none, size) ∷ r) xs b = Blocks-AllPos r xs b
Blocks-AllPos ((some p, zero) ∷ r) xs b = Blocks-AllPos r xs b
Blocks-AllPos ((some p, suc k) ∷ r) [] b = absurd b
Blocks-AllPos ((some p, suc k) ∷ r) (x ∷ xs) b = (omega arith, Blocks-AllPos r xs b.4)

pub InUse-insert :
    (words : ℕ) (x : Span) (ys bs : List Span)
    → AllPos ys
    → DisjointAll x ys
    → InUse words ys bs
    → InUse words ys (insert x bs)
InUse-insert words x [] bs pos d u = tt
InUse-insert words x (y ∷ ys) bs pos d u =
    (Clear-insert words y x bs pos.0 (swap d.0) u.0, u.1, InUse-insert words x ys bs pos.1 d.1 u.2)
  where
    swap : Disjoint x y → Disjoint y x
    swap (inl h) = inr h
    swap (inr h) = inl h

free_none : (fuel size : ℕ) (heap : Allocator) → mem_free fuel none size heap ≡ some heap
unfolding mem_free
free_none fuel size heap = refl

free_zero : (fuel p : ℕ) (heap : Allocator) → mem_free fuel (some p) 0 heap ≡ some heap
unfolding mem_free
free_zero fuel p heap = refl

release-cons :
    (fuel : ℕ) (p : Option ℕ) (size : ℕ) (r : List (Option ℕ × ℕ)) (heap heap' : Allocator)
    → mem_free fuel p size heap ≡ some heap'
    → release fuel ((p, size) ∷ r) heap ≡ release fuel r heap'
unfolding release
release-cons fuel p size r heap heap' e = rw (release, e) refl

-- Freeing blocks that are in use puts all of them back among the free spans.
pub release-Holds :
    (words fuel : ℕ) (r : List (Option ℕ × ℕ)) (xs bs : List Span) (heap : Allocator)
    → words < fuel
    → Holds words heap bs
    → Blocks r xs
    → InUse words xs bs
    → (heap' : Allocator) × (release fuel r heap ≡ some heap')
      × Holds words heap' (insert_all xs bs)
release-Holds words fuel [] [] bs heap f h b u = (heap, unfold release in refl, h)
release-Holds words fuel [] (x ∷ xs) bs heap f h b u = absurd b
release-Holds words fuel ((none, size) ∷ r) xs bs heap f h b u =
    rw (release-cons fuel none size r heap heap (free_none fuel size heap))
      (release-Holds words fuel r xs bs heap f h b u)
release-Holds words fuel ((some p, zero) ∷ r) xs bs heap f h b u =
    rw (release-cons fuel (some p) 0 r heap heap (free_zero fuel p heap))
      (release-Holds words fuel r xs bs heap f h b u)
release-Holds words fuel ((some p, suc k) ∷ r) [] bs heap f h b u = absurd b
release-Holds words fuel ((some p, suc k) ∷ r) (x ∷ xs) bs heap f h b u =
    let (heap', e, freed) =
      mem_free-insert words fuel x.addr (suc k) x.size heap bs h f (omega arith) b.1 b.2 b.3 u.0 in
    rw (b.0, release-cons fuel (some x.addr) (suc k) r heap heap' e)
      (release-Holds words fuel r xs (insert x bs) heap' f freed.holds b.4
        (InUse-insert words x xs bs (Blocks-AllPos r xs b.4) u.1 u.2))
