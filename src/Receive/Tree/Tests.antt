-- ===== src/Receive/Tree/Tests.antt =====
-- The tree of the one word "GET ", walked.
use smews.Base.{ℕ, ◌≡◌, refl, none, some, List, [], ◌∷◌}
use smews.Receive.Tree.{match_char}

abbrev get_tree : List ℕ
get_tree = 71 ∷ 69 ∷ 84 ∷ 32 ∷ 128 ∷ []

reads_get : match_char 9 71 get_tree ≡ some (some (69 ∷ 84 ∷ 32 ∷ 128 ∷ []))
unfolding match_char
reads_get = refl

refuses_post : match_char 9 80 get_tree ≡ some none
unfolding match_char
refuses_post = refl
