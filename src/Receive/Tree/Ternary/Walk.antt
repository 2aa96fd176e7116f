-- ===== src/Receive/Tree/Ternary/Walk.antt =====
-- One turn of the walk at the bytes of a node.
use mathlib.Core.List.{append_assoc}
use smews.Base.{
  ℕ, suc, ◌+◌, ◌≡◌, ◌≤◌, ◌<◌, refl, sym, arith, ap, ap₂, ◌∙◌, Bool, false, not, ◌&&◌, List, ◌∷◌,
  ◌++◌, ltb, ◌==◌, if◌then◌else◌, length, drop, drop-append, u8, le→not_ltb, length-append,
}
use smews.Receive.Tree.{
  Turn, matched, not_found, look_at, bit, offset_inf, offset_eq, offset_sup, branch, read,
}
use smews.Receive.Tree.Ternary.{Ternary, leaf, node, has, head_bytes, encode}

-- what a turn does by the order of the character `c` and that of the node
abbrev pub by_order {ℓ} : {A : Type ℓ} → ℕ → ℕ → A → A → A → A
by_order c d same less more = if c == d then same else if ltb c d then less else more

abbrev pub follow : Bool → Turn → Turn
follow b t = if b then t else not_found

-- the bytes of a node behind its character and its resource
abbrev pub behind_ref : Ternary → Ternary → Ternary → List ℕ → List ℕ
behind_ref inf eq sup rest =
    head_bytes inf eq sup (encode inf) (encode eq) (encode sup)
    ++ (encode inf ++ (encode eq ++ (encode sup ++ rest)))

-- The offsets of a node fit in bytes, larger characters come with smaller ones, and what follows begins
-- with a printed character.
abbrev pub Starts : Ternary → Type 0
Starts leaf = Unit {0}
Starts (node c r inf eq sup) = (32 ≤ c) × (c < 128)

pub record Fits (inf eq sup : Ternary) : Type 0 where
  pub small : length (encode inf) + length (encode eq) + 3 < 256
  pub balanced : (has sup && not (has inf)) ≡ false
  pub starts : Starts eq

-- The byte of a node and its offsets, in front of any lists of bytes.
module _ (c d : ℕ) where
  branch_none : (w : List ℕ) → branch c d 0 (0 ∷ w) ≡ by_order c d not_found not_found not_found
  unfolding branch bit
  branch_none w = refl

  branch_char :
      (x : ℕ) (w : List ℕ)
      → 32 ≤ x
      → branch c d x (x ∷ w) ≡ by_order c d (matched (x ∷ w)) not_found not_found
  unfolding branch
  branch_char x w le = rw (le→not_ltb x 32 le) refl

  branch_inf : (w : List ℕ) → branch c d 1 (1 ∷ w) ≡ by_order c d not_found (look_at w) not_found
  unfolding branch offset_inf bit
  branch_inf w = refl

  skip-one :
      (h : ℕ) (xs w : List ℕ)
      → length xs + 3 < 256
      → drop (u8 (2 + length xs)) (h ∷ length xs ∷ (xs ++ w)) ≡ w
  skip-one h xs w small = ap (λ n. drop n (h ∷ length xs ∷ (xs ++ w))) short ∙ drop-append xs w
    where
      short : u8 (2 + length xs) ≡ suc (suc (length xs))
      short = omega arith

  branch_inf_eq :
      (xs w : List ℕ)
      → length xs + 3 < 256
      → branch c d 3 (3 ∷ length xs ∷ (xs ++ w))
        ≡ by_order c d (matched w) (look_at (xs ++ w)) not_found
  unfolding branch offset_inf offset_eq bit
  branch_inf_eq xs w small =
      ap (λ v. by_order c d (matched v) (look_at (xs ++ w)) not_found) (skip-one 3 xs w small)

  branch_inf_sup :
      (xs w : List ℕ)
      → length xs + 3 < 256
      → branch c d 5 (5 ∷ length xs ∷ (xs ++ w))
        ≡ by_order c d not_found (look_at (xs ++ w)) (look_at w)
  unfolding branch offset_inf offset_eq offset_sup bit
  branch_inf_sup xs w small =
      ap (λ v. by_order c d not_found (look_at (xs ++ w)) (look_at v)) (skip-one 5 xs w small)

  skip-inf :
      (xs ys w : List ℕ)
      → length xs + length ys + 3 < 256
      → drop (u8 (3 + length xs)) (7 ∷ length xs ∷ length ys ∷ (xs ++ (ys ++ w))) ≡ ys ++ w
  skip-inf xs ys w small =
      ap (λ n. drop n (7 ∷ length xs ∷ length ys ∷ (xs ++ (ys ++ w)))) short
      ∙ drop-append xs (ys ++ w)
    where
      short : u8 (3 + length xs) ≡ suc (suc (suc (length xs)))
      short = omega arith

  skip-eq :
      (xs ys w : List ℕ)
      → length xs + length ys + 3 < 256
      → drop (u8 (u8 (3 + length xs) + length ys)) (7 ∷ length xs ∷ length ys ∷ (xs ++ (ys ++ w)))
        ≡ w
  skip-eq xs ys w small =
      ap₂ (λ n v. drop n (7 ∷ length xs ∷ length ys ∷ v)) short (sym (append_assoc xs ys w))
      ∙ drop-append (xs ++ ys) w
    where
      short : u8 (u8 (3 + length xs) + length ys) ≡ suc (suc (suc (length (xs ++ ys))))
      short = omega (arith, length-append xs ys)

  branch_all :
      (xs ys w : List ℕ)
      → length xs + length ys + 3 < 256
      → branch c d 7 (7 ∷ length xs ∷ length ys ∷ (xs ++ (ys ++ w)))
        ≡ by_order c d (matched (ys ++ w)) (look_at (xs ++ (ys ++ w))) (look_at w)
  unfolding branch offset_inf offset_eq offset_sup bit
  branch_all xs ys w small =
      ap₂ (λ u v. by_order c d (matched u) (look_at (xs ++ (ys ++ w))) (look_at v))
        (skip-inf xs ys w small) (skip-eq xs ys w small)

  pub branch_node :
      (inf eq sup : Ternary) (rest : List ℕ)
      → Fits inf eq sup
      → branch c d (read (behind_ref inf eq sup rest) 0) (behind_ref inf eq sup rest)
        ≡ by_order c d
            (follow (has eq) (matched (encode eq ++ (encode sup ++ rest))))
            (follow (has inf) (look_at (encode inf ++ (encode eq ++ (encode sup ++ rest)))))
            (follow (has sup) (look_at (encode sup ++ rest)))
  unfolding encode
  branch_node leaf leaf leaf rest f = branch_none rest
  branch_node leaf (node x r i e s) leaf rest f = branch_char x _ f.starts.0
  branch_node (node x r i e s) leaf leaf rest f = branch_inf _
  branch_node (node x r i e s) (node x' r' i' e' s') leaf rest f =
      branch_inf_eq (encode (node x r i e s)) (encode (node x' r' i' e' s') ++ rest)
        (omega (arith, f.small))
  branch_node (node x r i e s) leaf (node x' r' i' e' s') rest f =
      branch_inf_sup (encode (node x r i e s)) (encode (node x' r' i' e' s') ++ rest)
        (omega (arith, f.small))
  branch_node (node x r i e s) (node x' r' i' e' s') (node x'' r'' i'' e'' s'') rest f =
      branch_all (encode (node x r i e s)) (encode (node x' r' i' e' s'))
        (encode (node x'' r'' i'' e'' s'') ++ rest) f.small
  branch_node leaf eq (node x r i e s) rest f = cc f.balanced
