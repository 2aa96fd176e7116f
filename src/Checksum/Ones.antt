-- ===== src/Checksum/Ones.antt =====
-- The checksum as a one's complement sum of 16-bit words.
use smews.Base.{
  ℕ, suc, ◌+◌, ◌-◌, ◌*◌, ◌/◌, ◌%◌, ◌^◌, ◌≤◌, ◌<◌, ◌≡◌, ◌≢◌, refl, ap, arith, Bool, true, false, not,
  some, List, [], ◌∷◌, ◌++◌, ◌==◌, if◌then◌else◌, u16, ◌∙◌,
}
use native.Mathlib.Decide.{ℕ_discrete}
use smews.Checksum.{
  Sum, checksum_init, checksum_add, checksum_add16, checksum_add32, checksum_end, word, add_both,
}

-- what is summed: one byte, two or four
pub data Item : Type 0 where
  byte : ℕ → Item
  pair : ℕ → Item
  quad : ℕ → ℕ → ℕ → ℕ → Item

abbrev pub feed : Sum → Item → Sum
feed s (byte v) = checksum_add s v
feed s (pair v) = checksum_add16 s v
feed s (quad a b c d) = checksum_add32 s a b c d

abbrev pub feed_all : Sum → List Item → Sum
feed_all s [] = s
feed_all s (i ∷ is) = feed_all (feed s i) is

abbrev pub next_flip : Bool → Item → Bool
next_flip f (byte v) = not f
next_flip f (pair v) = f
next_flip f (quad a b c d) = f

-- The items are of the width that they say, and two or four bytes stand at an even place only.
abbrev pub Fits : Bool → Item → Type 0
Fits f (byte v) = v < 2 ^ 8
Fits f (pair v) = (f ≡ true) × (v < 2 ^ 16)
Fits f (quad a b c d) = (f ≡ true) × (a < 2 ^ 8) × (b < 2 ^ 8) × (c < 2 ^ 8) × (d < 2 ^ 8)

abbrev pub FitsAll : Bool → List Item → Type 0
FitsAll f [] = Unit {0}
FitsAll f (i ∷ is) = Fits f i × FitsAll (next_flip f i) is

-- The number that an item adds to a sum of big-endian 16-bit words.
abbrev pub amount : Bool → Item → ℕ
amount true (byte v) = v * 2 ^ 8
amount false (byte v) = v
amount f (pair v) = v
amount f (quad a b c d) = (a * 2 ^ 8 + b) + (c * 2 ^ 8 + d)

abbrev pub amount_all : Bool → List Item → ℕ
amount_all f [] = 0
amount_all f (i ∷ is) = amount f i + amount_all (next_flip f i) is

-- The one's complement sum of 16 bits of numbers that add up to `n`.
abbrev pub ones_sum : ℕ → ℕ
ones_sum n = if n == 0 then 0 else (n - 1) % 65535 + 1

-- the carry weighs what the next byte weighs
abbrev value : Bool → Sum → ℕ
value true s = word s + s.carry * 2 ^ 8
value false s = word s + s.carry

-- The sum stands for `total`, less a multiple of 65535.
record Stands (s : Sum) (f : Bool) (total : ℕ) : Type 0 where
  high_fits : s.high < 2 ^ 8
  low_fits : s.low < 2 ^ 8
  carry_fits : s.carry < 2 ^ 8
  flip_is : s.flip ≡ f
  off : ℕ
  sums : total ≡ value f s + off * 65535
  zero_of : value f s ≡ 0 → off ≡ 0

module _ (s : Sum) (total : ℕ) where
  Stands-byte_high :
      (v : ℕ)
      → Stands s true total
      → v < 2 ^ 8
      → Stands (checksum_add s v) false (total + v * 2 ^ 8)
  unfolding checksum_add
  Stands-byte_high v h fit = rw h.flip_is (record {
    high_fits = omega arith;
    low_fits = h.low_fits;
    carry_fits = omega (arith, h.high_fits, h.carry_fits);
    flip_is = refl;
    off = h.off + u16 (s.high + v + s.carry) / 2 ^ 8;
    sums = omega (arith, h.sums, h.high_fits, h.low_fits, h.carry_fits);
    zero_of = λ z. omega (arith, h.zero_of, h.high_fits, h.low_fits, h.carry_fits);
  })

  Stands-byte_low :
      (v : ℕ) → Stands s false total → v < 2 ^ 8 → Stands (checksum_add s v) true (total + v)
  unfolding checksum_add
  Stands-byte_low v h fit = rw h.flip_is (record {
    high_fits = h.high_fits;
    low_fits = omega arith;
    carry_fits = omega (arith, h.low_fits, h.carry_fits);
    flip_is = refl;
    off = h.off;
    sums = omega (arith, h.sums, h.high_fits, h.low_fits, h.carry_fits);
    zero_of = λ z. omega (arith, h.zero_of, h.high_fits, h.low_fits, h.carry_fits);
  })

  Stands-both :
      (a b : ℕ)
      → Stands s true total
      → a < 2 ^ 9
      → b < 2 ^ 9
      → Stands (add_both s a b) true (total + (a * 2 ^ 8 + b))
  unfolding add_both
  Stands-both a b h fa fb = record {
    high_fits = omega arith;
    low_fits = omega arith;
    carry_fits = omega (arith, h.high_fits, h.low_fits, h.carry_fits);
    flip_is = h.flip_is;
    off = h.off + u16 (s.high + a + s.carry) / 2 ^ 8;
    sums = omega (arith, h.sums, h.high_fits, h.low_fits, h.carry_fits);
    zero_of = λ z. omega (arith, h.zero_of, h.high_fits, h.low_fits, h.carry_fits);
  }

Stands-eq : (s : Sum) (f : Bool) (m n : ℕ) → m ≡ n → Stands s f m → Stands s f n
Stands-eq s f m n e h = rw (← e) h

Stands-feed :
    (s : Sum) (f : Bool) (total : ℕ) (i : Item)
    → Stands s f total
    → Fits f i
    → Stands (feed s i) (next_flip f i) (total + amount f i)
unfolding checksum_add16 checksum_add32
Stands-feed s true total (byte v) h fit = Stands-byte_high s total v h fit
Stands-feed s false total (byte v) h fit = Stands-byte_low s total v h fit
Stands-feed s true total (pair v) h fit =
    Stands-eq _ true _ _ (omega arith)
      (Stands-both s total (v / 2 ^ 8) (v % 2 ^ 8) h (omega arith) (omega arith))
Stands-feed s false total (pair v) h fit = cc
Stands-feed s true total (quad a b c d) h fit =
    Stands-eq _ true _ _ (omega arith)
      (Stands-both s total (a + c) (b + d) h (omega arith) (omega arith))
Stands-feed s false total (quad a b c d) h fit = cc

abbrev pub end_flip : Bool → List Item → Bool
end_flip f [] = f
end_flip f (i ∷ is) = end_flip (next_flip f i) is

Stands-feed_all :
    (s : Sum) (f : Bool) (total : ℕ) (is : List Item)
    → Stands s f total
    → FitsAll f is
    → Stands (feed_all s is) (end_flip f is) (total + amount_all f is)
Stands-feed_all s f total [] h fit = Stands-eq s f total _ (omega arith) h
Stands-feed_all s f total (i ∷ is) h fit = Stands-eq _ _ _ _ (omega arith) (
    Stands-feed_all (feed s i) (next_flip f i) (total + amount f i) is
      (Stands-feed s f total i h fit.0) fit.1)

-- The byte that the carry goes to.
abbrev current : Bool → Sum → ℕ
current true s = s.high
current false s = s.low

record Turn (s : Sum) (f : Bool) (r : Sum) : Type 0 where
  kept : current f r + r.carry * 2 ^ 8 ≡ current f s + s.carry
  other : current (not f) r ≡ current (not f) s

checksum_add-Turn :
    (s : Sum) (f : Bool) (total : ℕ) → Stands s f total → Turn s f (checksum_add s 0)
unfolding checksum_add
checksum_add-Turn s true total h = rw h.flip_is (omega (arith, h.high_fits, h.carry_fits))
checksum_add-Turn s false total h = rw h.flip_is (omega (arith, h.low_fits, h.carry_fits))

Stands-turn :
    (s : Sum) (f : Bool) (total : ℕ) → Stands s f total → Stands (checksum_add s 0) (not f) total
Stands-turn s true total h =
    Stands-eq _ false _ _ (omega arith) (Stands-byte_high s total 0 h (omega arith))
Stands-turn s false total h =
    Stands-eq _ true _ _ (omega arith) (Stands-byte_low s total 0 h (omega arith))

-- `checksum_end` stops, with no carry left.
record Ends (fuel : ℕ) (s : Sum) (total : ℕ) : Type 0 where
  sum : Sum
  returns : checksum_end fuel s ≡ some sum
  settled : sum.carry ≡ 0
  flip : Bool
  stands : Stands sum flip total

module _ (total : ℕ) where
  Ends-now : (k : ℕ) (s : Sum) (f : Bool) → Stands s f total → s.carry ≡ 0 → Ends (suc k) s total
  unfolding checksum_end
  Ends-now k s f h z = record { sum = s; returns = ground arith; settled = z; flip = f; stands = h }

  Ends-later :
      (k : ℕ) (s : Sum) → s.carry ≢ 0 → Ends k (checksum_add s 0) total → Ends (suc k) s total
  unfolding checksum_end
  Ends-later k s ne e = record {
    sum = e.sum;
    returns = ground (arith, e.returns);
    settled = e.settled;
    flip = e.flip;
    stands = e.stands;
  }

  Ends-step :
      (k : ℕ) (s : Sum) (f : Bool)
      → Stands s f total
      → (Turn s f (checksum_add s 0) → Ends k (checksum_add s 0) total)
      → Ends (suc k) s total
  Ends-step k s f h next = elim (ℕ_discrete s.carry 0) [
    | yes z ↦ Ends-now k s f h z
    | no ne ↦ Ends-later k s ne (next (checksum_add-Turn s f total h))
  ]

  -- at most three bytes take the carry
  Ends-two :
      (k : ℕ) (s : Sum) (f : Bool)
      → Stands s f total
      → current f s + s.carry < 2 ^ 8
      → Ends (suc (suc k)) s total
  Ends-two k s f h small =
      Ends-step (suc k) s f h
        λ t. Ends-now k _ (not f) (Stands-turn s f total h) (omega (arith, t.kept))

  Ends-three :
      (k : ℕ) (s : Sum) (f : Bool)
      → Stands s f total
      → s.carry ≤ 1
      → current (not f) s < 255
      → current f s < 2 ^ 8
      → Ends (suc (suc (suc k))) s total
  Ends-three k s f h one room fits =
      Ends-step (suc (suc k)) s f h
        λ t. Ends-two k _ (not f) (Stands-turn s f total h) (omega (arith, t.kept, t.other))

  current-lt : (s : Sum) (f g : Bool) → Stands s f total → current g s < 2 ^ 8
  current-lt s f true h = h.high_fits
  current-lt s f false h = h.low_fits

  current-not : (s : Sum) (f : Bool) → current (not (not f)) s ≡ current f s
  current-not s true = refl
  current-not s false = refl

  Ends-four :
      (k : ℕ) (s : Sum) (f : Bool) → Stands s f total → Ends (suc (suc (suc (suc k)))) s total
  Ends-four k s f h = Ends-step (suc (suc (suc k))) s f h λ t.
      elim (ℕ_discrete (checksum_add s 0).carry 0) [
        | yes z ↦ Ends-now (suc (suc k)) _ (not f) (Stands-turn s f total h) z
        | no ne ↦
            Ends-three k _ (not f) (Stands-turn s f total h)
              (omega (arith, t.kept, current-lt s f f h, h.carry_fits))
              (rw (current-not (checksum_add s 0) f)
                (omega (arith, t.kept, current-lt s f f h, h.carry_fits)))
              (current-lt (checksum_add s 0) (not f) (not f) (Stands-turn s f total h))
      ]

-- `checksum_end` returns a sum `r` whose word is `w`.
abbrev pub EndsWith : ℕ → Sum → ℕ → Type 0
EndsWith fuel s w =
    (r : Sum) × (checksum_end fuel s ≡ some r) × (r.high < 2 ^ 8) × (r.low < 2 ^ 8) × (word r ≡ w)

EndsWith-ones_sum :
    (fuel total : ℕ) (s : Sum) (f : Bool)
    → 3 < fuel
    → Stands s f total
    → EndsWith fuel s (ones_sum total)
EndsWith-ones_sum (suc (suc (suc (suc k)))) total s f l h =
    let e = Ends-four total k s f h in
    (
      e.sum,
      e.returns,
      e.stands.high_fits,
      e.stands.low_fits,
      settled-word e.sum e.flip e.settled e.stands,
    )
  where
    settled-word : (r : Sum) (f : Bool) → r.carry ≡ 0 → Stands r f total → word r ≡ ones_sum total
    settled-word r true z h = ground (arith, h.sums, h.zero_of, h.high_fits, h.low_fits)
    settled-word r false z h = ground (arith, h.sums, h.zero_of, h.high_fits, h.low_fits)
EndsWith-ones_sum fuel total s f l h = absurd (omega arith)

-- `UI16(current_checksum) = w` behind `checksum_init`
abbrev pub preset : ℕ → Sum
preset w = record { high = w / 2 ^ 8; low = w % 2 ^ 8; carry = 0; flip = true }

-- From a preset 16-bit word, and with two and four bytes added at even places only, `checksum_end`
-- stops after at most three rounds. The two bytes are then the one's complement sum of the preset
-- and of all that was added, read as big-endian 16-bit words.
pub checksum_end-ones_sum :
    (fuel w : ℕ) (is : List Item)
    → 3 < fuel
    → w < 2 ^ 16
    → FitsAll true is
    → EndsWith fuel (feed_all (preset w) is) (ones_sum (w + amount_all true is))
checksum_end-ones_sum fuel w is l small fit = EndsWith-ones_sum fuel _ _ _ l (
    Stands-feed_all (preset w) true w is
      (record {
        high_fits = omega arith;
        low_fits = omega arith;
        carry_fits = omega arith;
        flip_is = refl;
        off = 0;
        sums = omega arith;
        zero_of = λ z. refl;
      })
      fit)

checksum_init-preset : checksum_init ≡ preset 0
unfolding checksum_init
checksum_init-preset = refl

pub amount_all-append :
    (f : Bool) (xs ys : List Item)
    → end_flip f xs ≡ true
    → amount_all f (xs ++ ys) ≡ amount_all f xs + amount_all true ys
amount_all-append f [] ys e = rw e (omega arith)
amount_all-append f (x ∷ xs) ys e = omega (arith, amount_all-append (next_flip f x) xs ys e)

pub FitsAll-append :
    (f : Bool) (xs ys : List Item)
    → end_flip f xs ≡ true
    → FitsAll f xs
    → FitsAll true ys
    → FitsAll f (xs ++ ys)
FitsAll-append f [] ys e a b = rw e b
FitsAll-append f (x ∷ xs) ys e a b = (a.0, FitsAll-append (next_flip f x) xs ys e a.1 b)

pub EndsWith-word :
    (fuel : ℕ) (s : Sum) (w : ℕ) (r : Sum)
    → EndsWith fuel s w
    → checksum_end fuel s ≡ some r
    → word r ≡ w
EndsWith-word fuel s w r (q, e, _, _, is) e' = ap word same ∙ is
  where
    same : r ≡ q
    same = cc

-- What a sender sums and what a receiver sums: with the complement of the sum of all other data
-- standing at an even place among them, the receiver's sum is 0xffff.
checksum_end-complement :
    (fuel : ℕ) (xs ys : List Item) {r : Sum}
    → 3 < fuel
    → end_flip true xs ≡ true
    → FitsAll true xs
    → FitsAll true ys
    → checksum_end fuel (feed_all checksum_init (xs ++ ys)) ≡ some r
    → EndsWith fuel (feed_all checksum_init (xs ++ pair (0xffff - word r) ∷ ys)) 0xffff
checksum_end-complement fuel xs ys {r} l even fx fy e =
    rw (checksum_init-preset) (rw sum at received)
  where
    sent :
        EndsWith fuel (feed_all (preset 0) (xs ++ ys)) (ones_sum (0 + amount_all true (xs ++ ys)))
    sent =
        checksum_end-ones_sum fuel 0 (xs ++ ys) l (omega arith)
          (FitsAll-append true xs ys even fx fy)

    sums_to : word r ≡ ones_sum (0 + amount_all true (xs ++ ys))
    sums_to = EndsWith-word fuel _ _ r sent (rw checksum_init-preset at e)

    received :
        EndsWith fuel
          (feed_all (preset 0) (xs ++ pair (0xffff - word r) ∷ ys))
          (ones_sum (0 + amount_all true (xs ++ pair (0xffff - word r) ∷ ys)))
    received =
        checksum_end-ones_sum fuel 0 (xs ++ pair (0xffff - word r) ∷ ys) l (omega arith)
          (FitsAll-append true xs _ even fx ((refl, omega arith), fy))

    sum : ones_sum (0 + amount_all true (xs ++ pair (0xffff - word r) ∷ ys)) ≡ 0xffff
    sum = ground (
      arith,
      sums_to,
      amount_all-append true xs ys even,
      amount_all-append true xs (pair (0xffff - word r) ∷ ys) even,
    )
