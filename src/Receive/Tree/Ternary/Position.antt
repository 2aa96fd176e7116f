-- ===== src/Receive/Tree/Ternary/Position.antt =====
-- What is left of the bytes of a tree behind a character of a word.
use smews.Base.{
  ℕ, ◌+◌, ◌≡◌, refl, Bool, true, false, ◌&&◌, ◌||◌, Option, none, some, List, [], ◌∷◌, ◌++◌, leb,
  ltb, ◌==◌, Bool-cases, inl, inr,
}
use smews.Receive.Tree.{read}
use smews.Receive.Tree.Ternary.{Ternary, leaf, node, has, encode}
use smews.Receive.Tree.Ternary.Walk.{behind_ref}
use smews.Receive.Tree.Ternary.Child.{IsBlob, lt→not_leb}
use smews.Receive.Tree.Ternary.Lookup.{find, eq_of, resource_from, is_final}

-- the bytes that are left when a character was read
abbrev pub blob_at : Option ℕ → Ternary → Ternary → Ternary → List ℕ → List ℕ
blob_at none inf eq sup rest = encode eq ++ (encode sup ++ rest)
blob_at (some k) inf eq sup rest = (128 + k) ∷ behind_ref inf eq sup rest

pub or-split : (a b : Bool) → (a || b) ≡ false → (a ≡ false) × (b ≡ false)
or-split true b h = cc
or-split false b h = (refl, h)

pub resource_from-leaf : (word : List ℕ) → resource_from word none leaf ≡ none
resource_from-leaf [] = refl
resource_from-leaf (c ∷ cs) = resource_from-leaf cs

pub none-leaf : (t : Ternary) → has t ≡ false → t ≡ leaf
none-leaf leaf h = refl
none-leaf (node c r inf eq sup) h = cc

pub final-none : (r : Option ℕ) (b : Bool) → (is_final r || b) ≡ false → r ≡ none
final-none none b h = refl
final-none (some k) b h = cc

pub read-encode :
    (t : Ternary) (rest : List ℕ)
    → IsBlob t
    → has t ≡ true
    → leb 128 (read (encode t ++ rest) 0) ≡ false
unfolding encode
read-encode leaf rest b h = cc
read-encode (node c r inf eq sup) rest b h = lt→not_leb c b.1

pub behind_ref-open :
    (inf eq sup : Ternary) (rest : List ℕ)
    → has eq ≡ true
    → (has eq && (has inf || has sup)) ≡ false
    → behind_ref inf eq sup rest ≡ encode eq ++ (encode sup ++ rest)
unfolding encode
behind_ref-open leaf (node c r i e s) leaf rest h o = refl
behind_ref-open inf leaf sup rest h o = cc
behind_ref-open (node c r i e s) (node c' r' i' e' s') sup rest h o = cc
behind_ref-open leaf (node c r i e s) (node c' r' i' e' s') rest h o = cc

-- no word has the character
abbrev pub IsWithout : ℕ → Ternary → Type 0
IsWithout c leaf = Unit {0}
IsWithout c (node d r inf eq sup) =
    ((c == d) ≡ false) × IsWithout c inf × IsWithout c eq × IsWithout c sup

pub find-leaf : (c : ℕ) (t : Ternary) → IsWithout c t → find c t ≡ leaf
find-leaf c leaf w = refl
find-leaf c (node d r inf eq sup) w = elim (Bool-cases (ltb c d)) [
  | inl l ↦ rw (w.0, l) (find-leaf c inf w.1)
  | inr l ↦ rw (w.0, l) (find-leaf c sup w.3)
]

pub eq_of-IsWithout : (c d : ℕ) (t : Ternary) → IsWithout c t → IsWithout c (eq_of (find d t))
eq_of-IsWithout c d leaf w = tt
eq_of-IsWithout c d (node e r inf eq sup) w = elim (Bool-cases (d == e)) [
  | inl s ↦ rw s w.2
  | inr s ↦ elim (Bool-cases (ltb d e)) [
    | inl l ↦ rw (s, l) (eq_of-IsWithout c d inf w.1)
    | inr l ↦ rw (s, l) (eq_of-IsWithout c d sup w.3)
  ]
]

-- a character that neither ends the URL nor begins or separates arguments
abbrev pub IsPlain : ℕ → Type 0
IsPlain c = ((c == 32) || ((c == 63) || ((c == 61) || (c == 38)))) ≡ false

pub plain-split :
    (c : ℕ)
    → IsPlain c
    → ((c == 32) ≡ false) × ((c == 63) ≡ false) × ((c == 61) ≡ false) × ((c == 38) ≡ false)
plain-split c plain =
    let (a, a') = or-split (c == 32) ((c == 63) || ((c == 61) || (c == 38))) plain in
    let (b, b') = or-split (c == 63) ((c == 61) || (c == 38)) a' in
    let (d, e) = or-split (c == 61) (c == 38) b' in (a, b, d, e)
