-- ===== src/Receive/Tree/Ternary/Tests.antt =====
-- Words beside those that a tree has. The tree of /a, /b, /bb and /c cannot be walked to /bb, and that of /a, /b and /c leads
-- from /a and a byte 0 on to /c.
use smews.Base.{ℕ, ◌≡◌, refl, none, some, [], ◌∷◌}
use smews.Receive.Tree.{match_char}
use smews.Receive.Tree.Ternary.{Ternary, leaf, node, encode}
use smews.Receive.Tree.Ternary.Lookup.{resource}

abbrev final : ℕ → ℕ → Ternary
final c k = node c (some k) leaf leaf leaf

-- /a, /b, /bb and /c
abbrev hidden : Ternary
hidden = node 98 (some 1) (final 97 0) (final 98 2) (final 99 3)

hidden-resource : resource (98 ∷ 98 ∷ []) hidden ≡ some 2
hidden-resource = refl

-- behind `b`, one byte further than its resource, the walk for another `b` finds nothing
hidden-unreached :
    encode hidden ≡ 98 ∷ 129 ∷ 7 ∷ 3 ∷ 3 ∷ 97 ∷ 128 ∷ 0 ∷ 98 ∷ 130 ∷ 0 ∷ 99 ∷ 131 ∷ 0 ∷ []
unfolding encode
hidden-unreached = refl

hidden-walk :
    match_char 20 98 (7 ∷ 3 ∷ 3 ∷ 97 ∷ 128 ∷ 0 ∷ 98 ∷ 130 ∷ 0 ∷ 99 ∷ 131 ∷ 0 ∷ []) ≡ some none
unfolding match_char
hidden-walk = refl

-- behind the resource of /a, a byte 0 leads on to the node of /c
zero-bytes :
    encode (node 98 (some 1) (final 97 0) leaf (final 99 2))
    ≡ 98 ∷ 129 ∷ 5 ∷ 3 ∷ 97 ∷ 128 ∷ 0 ∷ 99 ∷ 130 ∷ 0 ∷ []
unfolding encode
zero-bytes = refl

zero-walk : match_char 20 0 (0 ∷ 99 ∷ 130 ∷ 0 ∷ []) ≡ some (some (99 ∷ 130 ∷ 0 ∷ []))
unfolding match_char
zero-walk = refl
