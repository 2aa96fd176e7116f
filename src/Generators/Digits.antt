-- ===== src/Generators/Digits.antt =====
-- The decimal digits of a number, written by `out_uint` and read as an argument of a request.
use smews.Base.{
  ℕ, zero, suc, ◌+◌, ◌/◌, ◌%◌, ◌^◌, ◌≡◌, ◌<◌, refl, sym, ap, ◌∙◌, arith, List, [], ◌∷◌, ◌==◌,
  ==_iff, Bool-cases, inl, inr,
}
use smews.Generators.{digits, out_uint, arg_ui16_char, read_ui16}

char-back : (i : ℕ) → i < 2 ^ 16 → arg_ui16_char (i / 10) (i % 10 + 48) ≡ i
unfolding arg_ui16_char
char-back i w = omega arith

-- Reading `c` behind the digits of i is reading it with i read already.
read-digits :
    (fuel i : ℕ) (c : List ℕ)
    → i < 10 ^ fuel
    → i < 2 ^ 16
    → read_ui16 (digits fuel i c) 0 ≡ read_ui16 c i
unfolding digits read_ui16 arg_ui16_char
read-digits zero i c h w = ap (read_ui16 c) (omega arith)
read-digits (suc fuel) i c h w =
    let back = char-back i w in
    elim (Bool-cases (i / 10 == 0)) [
      | inl e ↦ rw e (
          ap (read_ui16 c)
            (ap (λ j. arg_ui16_char j (i % 10 + 48)) (sym ((==_iff (i / 10) 0).0 e)) ∙ back))
      | inr e ↦ rw e (
          read-digits fuel (i / 10) ((i % 10 + 48) ∷ c) (omega arith) (omega arith)
          ∙ ap (read_ui16 c) back)
    ]

-- The decimal digits of a 16-bit number, read as an argument of a request, give the number back.
pub read_ui16-out_uint : (i : ℕ) → i < 2 ^ 16 → read_ui16 (out_uint i) 0 ≡ i
unfolding out_uint read_ui16
read_ui16-out_uint i w = read-digits 5 i [] (omega arith) w ∙ nothing i
  where
    nothing : (j : ℕ) → read_ui16 [] j ≡ j
    nothing j = refl
