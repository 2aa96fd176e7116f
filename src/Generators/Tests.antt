-- ===== src/Generators/Tests.antt =====
-- A number, written.
use smews.Base.{◌≡◌, refl, [], ◌∷◌}
use smews.Generators.{out_uint}

writes_407 : out_uint 407 ≡ 52 ∷ 48 ∷ 55 ∷ []
unfolding out_uint
writes_407 = refl
