-- ===== src/Address/RoundTrip.antt =====
-- Compressing an address with one run of zero bytes, and decompressing it.
use mathlib.Core.List.{append_assoc}
use smews.Base.{
  ℕ, zero, suc, ◌+◌, ◌-◌, ◌*◌, ◌/◌, ◌%◌, ◌^◌, bit_or, ◌≡◌, ◌≤◌, ◌<◌, refl, sym, ap, ap₂, ◌∙◌, arith,
  Bool, true, ◌&&◌, List, [], ◌∷◌, ◌++◌, ◌==◌, u8, take, drop, replicate, length, ==_iff,
  length-append, take-append, drop-append, Bool-cases, inl, inr,
}
use smews.Address.{Runs, no_runs, count, count_from, compress_ip, decompress_ip}

abbrev pub NonZero : List ℕ → Type 0
NonZero [] = Unit {0}
NonZero (b ∷ bs) = (0 < b) × NonZero bs

count-nonzero : (i b : ℕ) (r : Runs) → 0 < b → r.curr_nb ≤ r.max_nb → count i b r ≡ r
unfolding count
count-nonzero i b r pos le = ground arith

-- Bytes other than zero leave what is counted as it is.
count_from-NonZero :
    (i : ℕ) (bs : List ℕ) (r : Runs) → NonZero bs → r.curr_nb ≤ r.max_nb → count_from i bs r ≡ r
unfolding count_from
count_from-NonZero i [] r n le = refl
count_from-NonZero i (b ∷ bs) r n le =
    rw (count-nonzero i b r n.0 le) (count_from-NonZero (suc i) bs r n.1 le)

count_from-append :
    (i : ℕ) (xs ys : List ℕ) (r : Runs)
    → count_from i (xs ++ ys) r ≡ count_from (i + length xs) ys (count_from i xs r)
unfolding count_from
count_from-append i [] ys r = ap (λ j. count_from j ys r) (omega arith)
count_from-append i (x ∷ xs) ys r =
    count_from-append (suc i) xs ys (count i x r)
    ∙ ap (λ j. count_from j ys (count_from (suc i) xs (count i x r))) (omega arith)

abbrev run : ℕ → ℕ → Runs
run i n = record { curr_index = i; max_index = 0; curr_nb = n; max_nb = 0 }

count-zero : (i j k : ℕ) → count i 0 (run j (suc k)) ≡ run j (suc (suc k))
unfolding count
count-zero i j k = ground arith

count_from-zeros : (i j k n : ℕ) → count_from i (replicate n 0) (run j (suc k)) ≡ run j (suc k + n)
unfolding count_from
count_from-zeros i j k zero = ap (run j) (omega arith)
count_from-zeros i j k (suc n) =
    ap (count_from (suc i) (replicate n 0)) (count-zero i j k)
    ∙ count_from-zeros (suc i) j (suc k) n
    ∙ ap (run j) (omega arith)

count-first : (i : ℕ) → count i 0 no_runs ≡ run i 1
unfolding count
count-first i = ground arith

-- the runs at the end of a run that is longer than those before
abbrev ended : ℕ → ℕ → Runs
ended i n = record { curr_index = i; max_index = i; curr_nb = 0; max_nb = n }

count-end : (i j n b : ℕ) → 0 < b → count i b (run j (suc n)) ≡ ended j (suc n)
unfolding count
count-end i j n b pos = ground arith

behind :
    (i n b : ℕ) (bs : List ℕ)
    → NonZero (b ∷ bs)
    → count_from i (replicate (suc n) 0 ++ b ∷ bs) no_runs ≡ ended i (suc n)
unfolding count_from
behind i n b bs s =
    ap (count_from (suc i) (replicate n 0 ++ b ∷ bs)) (count-first i)
    ∙ count_from-append (suc i) (replicate n 0) (b ∷ bs) (run i 1)
    ∙ ap (count_from (suc i + length (replicate n 0)) (b ∷ bs))
        (count_from-zeros (suc i) i 0 n ∙ ap (run i) (omega arith))
    ∙ ap (count_from (suc (suc i + length (replicate n 0))) bs)
        (count-end (suc i + length (replicate n 0)) i n b s.0)
    ∙ count_from-NonZero (suc (suc i + length (replicate n 0))) bs (ended i (suc n)) s.1
        (omega arith)

-- what is counted of an address with one run of zero bytes, which is not at its end
one_run :
    (pre : List ℕ) (n b : ℕ) (bs : List ℕ)
    → NonZero pre
    → NonZero (b ∷ bs)
    → count_from 0 (pre ++ (replicate (suc n) 0 ++ b ∷ bs)) no_runs ≡ ended (length pre) (suc n)
one_run pre n b bs p s =
    count_from-append 0 pre (replicate (suc n) 0 ++ b ∷ bs) no_runs
    ∙ ap₂ (λ i r. count_from i (replicate (suc n) 0 ++ b ∷ bs) r) (omega arith)
        (count_from-NonZero 0 pre no_runs p (omega arith))
    ∙ behind (length pre) n b bs s

length-replicate : (n a : ℕ) → length (replicate n a) ≡ n
length-replicate zero a = refl
length-replicate (suc n) a = ap suc (length-replicate n a)

-- the 256 values of two half bytes, checked by evaluation
all_below : ℕ → (ℕ → Bool) → Bool
all_below zero f = true
all_below (suc n) f = f n && all_below n f

all_below-get : (n i : ℕ) (f : ℕ → Bool) → all_below n f ≡ true → i < n → f i ≡ true
unfolding all_below
all_below-get zero i f h l = ground arith
all_below-get (suc n) i f h l = elim (Bool-cases (i == n)) [
  | inl e ↦ rw ((==_iff i n).0 e) (both (f n) (all_below n f) h).0
  | inr e ↦ all_below-get n i f (both (f n) (all_below n f) h).1 (ground arith)
]
  where
    both : (a b : Bool) → (a && b) ≡ true → (a ≡ true) × (b ≡ true)
    both a b h = ground arith

bit_or-halves : (a n : ℕ) → a < 16 → n < 16 → bit_or (u8 (a * 2 ^ 4)) n ≡ a * 16 + n
unfolding all_below
bit_or-halves a n la ln = (==_iff (bit_or (u8 (a * 2 ^ 4)) n) (a * 16 + n)).0 (
    all_below-get 16 n (λ n. bit_or (u8 (a * 2 ^ 4)) n == a * 16 + n)
      (all_below-get 16 a (λ a. all_below 16 (λ n. bit_or (u8 (a * 2 ^ 4)) n == a * 16 + n)) refl
        la)
      ln)

-- the first part of a list in three parts, and the last
drop-middle :
    (xs ys zs : List ℕ) (k : ℕ) → length ys ≡ k → drop (length xs + k) (xs ++ (ys ++ zs)) ≡ zs
drop-middle xs ys zs k e =
    ap₂ drop (ap (λ j. length xs + j) (sym e) ∙ sym (length-append xs ys))
      (sym (append_assoc xs ys zs))
    ∙ drop-append (xs ++ ys) zs

compress_one_run :
    (pre zeros suf : List ℕ) (n : ℕ)
    → count_from 0 (pre ++ (zeros ++ suf)) no_runs ≡ ended (length pre) n
    → length zeros ≡ n
    → length pre < 16
    → n < 16
    → compress_ip (pre ++ (zeros ++ suf)) ≡ (pre ++ (suf ++ replicate n 0), length pre * 16 + n)
unfolding compress_ip
compress_one_run pre zeros suf n counted len small few =
    ap packed counted
    ∙ ap₂ (λ xs i. (xs, i))
        (ap₂ (λ xs ys. xs ++ (ys ++ replicate n 0)) (take-append pre (zeros ++ suf))
          (drop-middle pre zeros suf n len))
        (bit_or-halves (length pre) n small few)
  where
    packed : Runs → List ℕ × ℕ
    packed r = (
      take r.max_index (pre ++ (zeros ++ suf))
          ++ (drop (r.max_index + r.max_nb) (pre ++ (zeros ++ suf)) ++ replicate r.max_nb 0),
      bit_or (u8 (r.max_index * 2 ^ 4)) r.max_nb,
    )

decompress_one_run :
    (pre suf : List ℕ) (n : ℕ)
    → n < 16
    → length pre + n + length suf ≡ 16
    → decompress_ip (pre ++ (suf ++ replicate n 0)) (length pre * 16 + n)
      ≡ pre ++ (replicate n 0 ++ suf)
unfolding decompress_ip
decompress_one_run pre suf n few len =
    let start : (length pre * 16 + n) / 16 ≡ length pre = omega arith in
    let nb : (length pre * 16 + n) % 16 ≡ n = omega arith in
    let left : 16 - (length pre + n) ≡ length suf = omega arith in
    ap₂ unpacked start nb
    ∙ ap₂ (λ xs ys. xs ++ (replicate n 0 ++ ys)) (take-append pre (suf ++ replicate n 0))
        (ap₂ take left (drop-append pre (suf ++ replicate n 0)) ∙ take-append suf (replicate n 0))
  where
    comp : List ℕ
    comp = pre ++ (suf ++ replicate n 0)

    unpacked : ℕ → ℕ → List ℕ
    unpacked a k = take a comp ++ (replicate k 0 ++ take (16 - (a + k)) (drop a comp))

-- An address with one run of zero bytes that is not at its end keeps its other bytes, and the
-- decompressed address is the address.
pub decompress_ip-compress_ip :
    (pre : List ℕ) (n b : ℕ) (bs : List ℕ)
    → NonZero pre
    → NonZero (b ∷ bs)
    → length pre + suc n + length (b ∷ bs) ≡ 16
    → (compress_ip (pre ++ (replicate (suc n) 0 ++ b ∷ bs))
        ≡ (pre ++ ((b ∷ bs) ++ replicate (suc n) 0), length pre * 16 + suc n))
      × (decompress_ip (pre ++ ((b ∷ bs) ++ replicate (suc n) 0)) (length pre * 16 + suc n)
          ≡ pre ++ (replicate (suc n) 0 ++ b ∷ bs))
decompress_ip-compress_ip pre n b bs p s l = (
  compress_one_run pre (replicate (suc n) 0) (b ∷ bs) (suc n) (one_run pre n b bs p s)
      (length-replicate (suc n) 0) (omega arith) (omega arith),
  decompress_one_run pre (b ∷ bs) (suc n) (omega arith) l,
)
