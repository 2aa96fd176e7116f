-- ===== src/Receive/Tree/Ternary/Lookup.antt =====
-- The resource of a word in a ternary tree.
use smews.Base.{
  ℕ, ◌+◌, ◌≡◌, ◌≤◌, refl, arith, Bool, true, false, ◌&&◌, ◌||◌, Option, none, some, List, [], ◌∷◌,
  ◌++◌, ltb, ◌==◌, length, length-append, Bool-cases, inl, inr,
}
use smews.Receive.Tree.Ternary.{Ternary, leaf, node, has, ref_bytes, head_bytes, encode}
use smews.Receive.Tree.Ternary.Walk.{by_order}
use smews.Receive.Tree.Ternary.Child.{at_node, child, IsBlob, depth}

-- the node of a character among its siblings, `leaf` if there is none
abbrev pub find : ℕ → Ternary → Ternary
find c leaf = leaf
find c (node d r inf eq sup) = by_order c d (node d r inf eq sup) (find c inf) (find c sup)

abbrev pub ref_of : Ternary → Option ℕ
ref_of leaf = none
ref_of (node c r inf eq sup) = r

abbrev pub eq_of : Ternary → Ternary
eq_of leaf = leaf
eq_of (node c r inf eq sup) = eq

-- the resource of a word read below a node with the resource `r` and the following characters `eq`
abbrev pub resource_from : List ℕ → Option ℕ → Ternary → Option ℕ
resource_from [] r eq = r
resource_from (c ∷ cs) r eq = resource_from cs (ref_of (find c eq)) (eq_of (find c eq))

abbrev pub resource : List ℕ → Ternary → Option ℕ
resource word t = resource_from word none t

abbrev pub is_final : Option ℕ → Bool
is_final none = false
is_final (some k) = true

-- No word of the tree is the beginning of another one where other characters may follow as well.
abbrev pub IsOpen : Ternary → Type 0
IsOpen leaf = Unit {0}
IsOpen (node c r inf eq sup) =
    ((is_final r && has eq && (has inf || has sup)) ≡ false) × IsOpen inf × IsOpen eq × IsOpen sup

pub find-IsBlob : (c : ℕ) (t : Ternary) → IsBlob t → IsBlob (find c t)
find-IsBlob c leaf b = tt
find-IsBlob c (node d r inf eq sup) b = elim (Bool-cases (c == d)) [
  | inl e ↦ rw e b
  | inr e ↦ elim (Bool-cases (ltb c d)) [
    | inl l ↦ rw (e, l) (find-IsBlob c inf b.3)
    | inr l ↦ rw (e, l) (find-IsBlob c sup b.5)
  ]
]

pub find-IsOpen : (c : ℕ) (t : Ternary) → IsOpen t → IsOpen (find c t)
find-IsOpen c leaf b = tt
find-IsOpen c (node d r inf eq sup) b = elim (Bool-cases (c == d)) [
  | inl e ↦ rw e b
  | inr e ↦ elim (Bool-cases (ltb c d)) [
    | inl l ↦ rw (e, l) (find-IsOpen c inf b.1)
    | inr l ↦ rw (e, l) (find-IsOpen c sup b.3)
  ]
]

-- what is left behind the node that is found
abbrev pub child_of : Ternary → List ℕ → Option (List ℕ)
child_of leaf rest = none
child_of (node d r inf eq sup) rest = at_node r inf eq sup rest

pub child-find :
    (c : ℕ) (t : Ternary) (rest : List ℕ)
    → (rest' : List ℕ) × (child c t rest ≡ child_of (find c t) rest')
child-find c leaf rest = (rest, refl)
child-find c (node d r inf eq sup) rest = elim (Bool-cases (c == d)) [
  | inl e ↦ rw e (rest, refl)
  | inr e ↦ elim (Bool-cases (ltb c d)) [
    | inl l ↦ rw (e, l) (child-find c inf (encode eq ++ (encode sup ++ rest)))
    | inr l ↦ rw (e, l) (child-find c sup rest)
  ]
]

length-four :
    (us vs xs ys zs : List ℕ) → length xs + length zs ≤ length (us ++ (vs ++ (xs ++ (ys ++ zs))))
length-four us vs xs ys zs = omega (
  arith,
  length-append us (vs ++ (xs ++ (ys ++ zs))),
  length-append vs (xs ++ (ys ++ zs)),
  length-append xs (ys ++ zs),
  length-append ys zs,
)

-- A tree has at least as many bytes as siblings that may be looked at.
pub depth-le : (t : Ternary) → depth t ≤ length (encode t)
unfolding encode
depth-le leaf = omega arith
depth-le (node c r inf eq sup) = omega (
  arith,
  depth-le inf,
  depth-le sup,
  length-four (ref_bytes r) (head_bytes inf eq sup (encode inf) (encode eq) (encode sup))
      (encode inf) (encode eq) (encode sup),
)
