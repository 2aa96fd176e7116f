-- ===== src/Receive/Tree/Ternary.antt =====
-- The ternary trees that tools/GenBlob.py builds from a list of words, and the bytes that it writes
-- for them. A node has one character here: the generator joins the characters of nodes whose only child is
-- the one that follows, and writes the same bytes for them.
pub mod Walk
pub mod Child
pub mod Lookup
pub mod Position
mod Tests
use smews.Base.{
  ℕ, ◌+◌, Bool, true, false, Option, none, some, List, [], ◌∷◌, ◌++◌, ◌==◌, if◌then◌else◌, length,
}

-- character, resource, and the trees of the smaller, the following and the larger characters
pub data Ternary : Type 0 where
  leaf : Ternary
  node : ℕ → Option ℕ → Ternary → Ternary → Ternary → Ternary

abbrev pub has : Ternary → Bool
has leaf = false
has (node c r inf eq sup) = true

abbrev pub flags : Ternary → Ternary → Ternary → ℕ
flags inf eq sup =
    (if has inf then 1 else 0) + (if has eq then 2 else 0) + (if has sup then 4 else 0)

abbrev pub ref_bytes : Option ℕ → List ℕ
ref_bytes none = []
ref_bytes (some k) = (128 + k) ∷ []

abbrev pub add_child : Ternary → List ℕ → List (List ℕ) → List (List ℕ)
add_child leaf bytes rest = rest
add_child (node c r inf eq sup) bytes rest = bytes ∷ rest

abbrev pub lengths_but_last : List (List ℕ) → List ℕ
lengths_but_last [] = []
lengths_but_last (x ∷ []) = []
lengths_but_last (x ∷ y ∷ ys) = length x ∷ lengths_but_last (y ∷ ys)

-- The byte of a node and the offsets, which a node with nothing but the following characters has not.
abbrev pub head_bytes : Ternary → Ternary → Ternary → List ℕ → List ℕ → List ℕ → List ℕ
head_bytes inf eq sup i e s =
    if flags inf eq sup == 2
    then []
    else flags inf eq sup ∷ lengths_but_last (add_child inf i (add_child eq e (add_child sup s [])))

-- `BLOBRec`
unfoldable pub encode : Ternary → List ℕ
encode leaf = []
encode (node c r inf eq sup) =
    let i = encode inf in
    let e = encode eq in
    let s = encode sup in c ∷ (ref_bytes r ++ (head_bytes inf eq sup i e s ++ (i ++ (e ++ s))))
