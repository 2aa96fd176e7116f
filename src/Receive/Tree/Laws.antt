-- ===== src/Receive/Tree/Laws.antt =====
-- The walk through the tree ends.
use smews.Base.{
  ℕ, zero, suc, ◌≡◌, ◌≤◌, ◌<◌, refl, arith, ap, ◌∙◌, Bool, true, false, not, ◌&&◌, Option, none,
  some, List, [], ◌∷◌, ltb, leb, ◌==◌, if◌then◌else◌, length, drop, Bool-cases, inl, inr,
}
use smews.Receive.Tree.{
  Turn, matched, not_found, look_at, bit, offset_inf, offset_eq, offset_sup, branch, turn,
  match_char, read, past_resource,
}

length-drop-le : (n : ℕ) (xs : List ℕ) → length (drop n xs) ≤ length xs
length-drop-le zero xs = omega arith
length-drop-le (suc n) [] = omega arith
length-drop-le (suc n) (x ∷ xs) = omega (arith, length-drop-le n xs)

-- Where a turn goes on to, the tree that is left is no longer than the one it got.
abbrev NoLonger : List ℕ → Turn → Type 0
NoLonger blob (look_at blob') = length blob' ≤ length blob
NoLonger blob _ = Unit {0}

branch-NoLonger : (c curr next : ℕ) (blob : List ℕ) → NoLonger blob (branch c curr next blob)
unfolding branch
branch-NoLonger c curr next blob =
    go (c == curr) (ltb next 32) (bit 1 next) (ltb c curr) (bit 0 next) (bit 2 next)
  where
    go :
        (same node eq less inf sup : Bool)
        → NoLonger blob (
            if same
            then (if node
                then (if eq then matched (drop (offset_eq next blob) blob) else not_found)
                else matched blob)
            else if less
            then (if node && inf then look_at (drop (offset_inf next) blob) else not_found)
            else (if node && sup then look_at (drop (offset_sup next blob) blob) else not_found))
    go true true true less inf sup = tt
    go true true false less inf sup = tt
    go true false eq less inf sup = tt
    go false true eq true true sup = length-drop-le (offset_inf next) blob
    go false true eq true false sup = tt
    go false false eq true inf sup = tt
    go false true eq false inf true = length-drop-le (offset_sup next blob) blob
    go false true eq false inf false = tt
    go false false eq false inf sup = tt

NoLonger-trans : (xs ys : List ℕ) (t : Turn) → length xs ≤ length ys → NoLonger xs t → NoLonger ys t
NoLonger-trans xs ys (matched blob) le h = tt
NoLonger-trans xs ys not_found le h = tt
NoLonger-trans xs ys (look_at blob) le h = omega arith

-- A turn takes the character away that it looks at.
turn-shorter : (c x : ℕ) (xs : List ℕ) → NoLonger xs (turn c (x ∷ xs))
unfolding turn
turn-shorter c x xs =
    NoLonger-trans (past_resource c x xs) xs
      (branch c x (read (past_resource c x xs) 0) (past_resource c x xs))
      (shorter (not (c == x) && leb 128 (read xs 0)))
      (branch-NoLonger c x (read (past_resource c x xs) 0) (past_resource c x xs))
  where
    shorter : (b : Bool) → length (if b then drop 1 xs else xs) ≤ length xs
    shorter true = length-drop-le 1 xs
    shorter false = omega arith

turn-empty : (c : ℕ) → turn c [] ≡ not_found
unfolding turn branch bit
turn-empty c = elim (Bool-cases (c == 0)) [
  | inl e ↦ rw e refl
  | inr e ↦ elim (Bool-cases (ltb c 0)) [ inl e' ↦ rw (e, e') refl | inr e' ↦ rw (e, e') refl ]
]

-- what `match_char` does behind a turn
abbrev pub behind : ℕ → ℕ → Turn → Option (Option (List ℕ))
behind fuel c (matched blob) = some (some blob)
behind fuel c not_found = some none
behind fuel c (look_at blob) = match_char fuel c blob

pub match_char-step :
    (fuel c : ℕ) (blob : List ℕ) → match_char (suc fuel) c blob ≡ behind fuel c (turn c blob)
unfolding match_char
match_char-step fuel c blob =
    elim (turn c blob)
      as (λ t.
        elim t [
          | matched blob' ↦ some (some blob')
          | not_found ↦ some none
          | look_at blob' ↦ match_char fuel c blob'
        ]
        ≡ behind fuel c t) [ matched blob' ↦ refl | not_found ↦ refl | look_at blob' ↦ refl ]

behind-total :
    (fuel c : ℕ) (xs : List ℕ) (t : Turn)
    → NoLonger xs t
    → ((blob : List ℕ)
        → length blob ≤ length xs
        → (r : Option (List ℕ)) × (match_char fuel c blob ≡ some r))
    → (r : Option (List ℕ)) × (behind fuel c t ≡ some r)
behind-total fuel c xs (matched blob) n rest = (some blob, refl)
behind-total fuel c xs not_found n rest = (none, refl)
behind-total fuel c xs (look_at blob) n rest = rest blob n

-- With more fuel than the tree has bytes, a character either leads on in the tree or to error 404.
match_char-total :
    (fuel c : ℕ) (blob : List ℕ)
    → length blob < fuel
    → (r : Option (List ℕ)) × (match_char fuel c blob ≡ some r)
match_char-total zero c blob f = absurd (omega arith)
match_char-total (suc fuel) c [] f =
    (none, match_char-step fuel c [] ∙ ap (behind fuel c) (turn-empty c))
match_char-total (suc fuel) c (x ∷ xs) f =
    let (r, returns) =
      behind-total fuel c xs (turn c (x ∷ xs)) (turn-shorter c x xs)
        (λ blob le. match_char-total fuel c blob (omega arith)) in
    (r, match_char-step fuel c (x ∷ xs) ∙ returns)
