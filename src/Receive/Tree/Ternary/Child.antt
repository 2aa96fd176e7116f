-- ===== src/Receive/Tree/Ternary/Child.antt =====
-- The walk for one character finds the child of that character.
use mathlib.Core.List.{append_assoc}
use smews.Base.{
  ℕ, zero, suc, ◌+◌, ◌≡◌, ◌≤◌, ◌<◌, refl, arith, ap, ◌∙◌, Bool, true, false, Option, none, some,
  List, ◌∷◌, ◌++◌, ltb, leb, ◌==◌, if◌then◌else◌, Bool-cases, inl, inr,
}
use smews.Receive.Tree.Laws.{behind, match_char-step}
use smews.Receive.Tree.{Turn, matched, not_found, look_at, branch, turn, match_char, read}
use smews.Receive.Tree.Ternary.{Ternary, leaf, node, has, ref_bytes, encode}
use smews.Receive.Tree.Ternary.Walk.{by_order, follow, behind_ref, Fits, branch_node}

-- what is left of the bytes at a node whose character was read, if anything may follow
abbrev pub at_node : Option ℕ → Ternary → Ternary → Ternary → List ℕ → Option (List ℕ)
at_node (some k) inf eq sup rest = some ((128 + k) ∷ behind_ref inf eq sup rest)
at_node none inf eq sup rest = if has eq then some (encode eq ++ (encode sup ++ rest)) else none

-- the node of a character among its siblings
abbrev pub child : ℕ → Ternary → List ℕ → Option (List ℕ)
child c leaf rest = none
child c (node d r inf eq sup) rest =
    by_order c d (at_node r inf eq sup rest) (child c inf (encode eq ++ (encode sup ++ rest)))
      (child c sup rest)

abbrev turn_at : Option (List ℕ) → Turn
turn_at none = not_found
turn_at (some blob) = matched blob

-- A tree as the generator makes it: characters and resources of 7 bits, offsets that fit in bytes, larger
-- characters only beside smaller ones.
abbrev pub IsBlob : Ternary → Type 0
IsBlob leaf = Unit {0}
IsBlob (node c r inf eq sup) =
    (32 ≤ c) × (c < 128) × Fits inf eq sup × IsBlob inf × IsBlob eq × IsBlob sup

head_lt :
    (inf eq sup : Ternary) (rest : List ℕ)
    → Fits inf eq sup
    → read (behind_ref inf eq sup rest) 0 < 128
unfolding encode
head_lt leaf leaf leaf rest f = omega arith
head_lt leaf (node x r i e s) leaf rest f = f.starts.1
head_lt (node x r i e s) leaf leaf rest f = omega arith
head_lt (node x r i e s) (node x' r' i' e' s') leaf rest f = omega arith
head_lt (node x r i e s) leaf (node x' r' i' e' s') rest f = omega arith
head_lt (node x r i e s) (node x' r' i' e' s') (node x'' r'' i'' e'' s'') rest f = omega arith
head_lt leaf eq (node x r i e s) rest f = cc f.balanced

pub lt→not_leb : (n : ℕ) → n < 128 → leb 128 n ≡ false
lt→not_leb n h = ground arith

pub ref-leb : (k : ℕ) → leb 128 (128 + k) ≡ true
ref-leb k = ground arith

ref-not_ltb : (k : ℕ) → ltb (128 + k) 32 ≡ false
ref-not_ltb k = ground arith

module _ (c d : ℕ) where
  turn-branch : (w : List ℕ) → read w 0 < 128 → turn c (d ∷ w) ≡ branch c d (read w 0) w
  unfolding turn
  turn-branch w small = elim (Bool-cases (c == d)) [
    | inl e ↦ rw e refl
    | inr e ↦ rw (e, lt→not_leb (read w 0) small) refl
  ]

  turn-ref :
      (k : ℕ) (w : List ℕ)
      → turn c (d ∷ (128 + k) ∷ w)
        ≡ (if c == d then matched ((128 + k) ∷ w) else branch c d (read w 0) w)
  unfolding turn branch
  turn-ref k w = elim (Bool-cases (c == d)) [
    | inl e ↦ rw (e, ref-not_ltb k) refl
    | inr e ↦ rw (e, ref-leb k) refl
  ]

  other-order {ℓ} :
      {A : Type ℓ} (a b less more : A)
      → (if c == d then a else by_order c d b less more) ≡ by_order c d a less more
  other-order a b less more = elim (Bool-cases (c == d)) [ inl e ↦ rw e refl | inr e ↦ rw e refl ]

  -- what a turn does at a node
  turn_node :
      (r : Option ℕ) (inf eq sup : Ternary) (rest : List ℕ)
      → Fits inf eq sup
      → turn c (d ∷ (ref_bytes r ++ behind_ref inf eq sup rest))
        ≡ by_order c d
            (turn_at (at_node r inf eq sup rest))
            (follow (has inf) (look_at (encode inf ++ (encode eq ++ (encode sup ++ rest)))))
            (follow (has sup) (look_at (encode sup ++ rest)))
  turn_node none inf eq sup rest f =
      turn-branch (behind_ref inf eq sup rest) (head_lt inf eq sup rest f)
      ∙ branch_node c d inf eq sup rest f
      ∙ ap
          (λ t.
            by_order c d t
              (follow (has inf) (look_at (encode inf ++ (encode eq ++ (encode sup ++ rest)))))
              (follow (has sup) (look_at (encode sup ++ rest))))
          (go (has eq))
    where
      go :
          (b : Bool)
          → follow b (matched (encode eq ++ (encode sup ++ rest)))
            ≡ turn_at (if b then some (encode eq ++ (encode sup ++ rest)) else none)
      go true = refl
      go false = refl
  turn_node (some k) inf eq sup rest f =
      turn-ref k (behind_ref inf eq sup rest)
      ∙ ap (λ t. if c == d then matched ((128 + k) ∷ behind_ref inf eq sup rest) else t)
          (branch_node c d inf eq sup rest f)
      ∙ other-order _ _ _ _

encode_node :
    (c : ℕ) (r : Option ℕ) (inf eq sup : Ternary) (rest : List ℕ)
    → encode (node c r inf eq sup) ++ rest ≡ c ∷ (ref_bytes r ++ behind_ref inf eq sup rest)
unfolding encode
encode_node c r inf eq sup rest =
    ap (λ w. c ∷ w) (four (ref_bytes r) _ (encode inf) (encode eq) (encode sup) rest)
  where
    four :
        (us bs xs ys zs ws : List ℕ)
        → (us ++ (bs ++ (xs ++ (ys ++ zs)))) ++ ws ≡ us ++ (bs ++ (xs ++ (ys ++ (zs ++ ws))))
    four us bs xs ys zs ws = simp append_assoc refl

-- the turns that a tree may take
abbrev pub depth : Ternary → ℕ
depth leaf = 0
depth (node c r inf eq sup) = suc (depth inf + depth sup)

side-child :
    (fuel c : ℕ) (t : Ternary) (rest : List ℕ)
    → (has t ≡ true → match_char fuel c (encode t ++ rest) ≡ some (child c t rest))
    → behind fuel c (follow (has t) (look_at (encode t ++ rest))) ≡ some (child c t rest)
side-child fuel c leaf rest walk = refl
side-child fuel c (node d r inf eq sup) rest walk = walk refl

by_order-behind :
    (fuel c d : ℕ) (same : Option (List ℕ)) (less more : Turn) (u v : Option (List ℕ))
    → behind fuel c less ≡ some u
    → behind fuel c more ≡ some v
    → behind fuel c (by_order c d (turn_at same) less more) ≡ some (by_order c d same u v)
by_order-behind fuel c d same less more u v p q = elim (Bool-cases (c == d)) [
  | inl e ↦ rw e (go same)
  | inr e ↦ elim (Bool-cases (ltb c d)) [ inl l ↦ rw (e, l) p | inr l ↦ rw (e, l) q ]
]
  where
    go : (s : Option (List ℕ)) → behind fuel c (turn_at s) ≡ some s
    go none = refl
    go (some blob) = refl

pub match_char-child :
    (fuel c : ℕ) (t : Ternary) (rest : List ℕ)
    → has t ≡ true
    → IsBlob t
    → depth t < fuel
    → match_char fuel c (encode t ++ rest) ≡ some (child c t rest)
match_char-child fuel c leaf rest h b f = cc
match_char-child zero c (node d r inf eq sup) rest h b f = absurd (omega arith)
match_char-child (suc fuel) c (node d r inf eq sup) rest h b f =
    ap (match_char (suc fuel) c) (encode_node d r inf eq sup rest)
    ∙ match_char-step fuel c _
    ∙ ap (behind fuel c) (turn_node c d r inf eq sup rest b.2)
    ∙ by_order-behind fuel c d (at_node r inf eq sup rest) _ _ _ _
        (side-child fuel c inf _ (λ h. match_char-child fuel c inf _ h b.3 (omega arith)))
        (side-child fuel c sup rest (λ h. match_char-child fuel c sup rest h b.5 (omega arith)))
