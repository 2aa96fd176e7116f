-- ===== src/Checksum.antt =====
-- The running checksum of core/checksum.inl. `current_checksum[S0]` is the high byte of the sum and
-- `current_checksum[S1]` the low one, on either endianness.
pub mod Ones
mod Tests
use smews.Base.{
  ℕ, zero, suc, ◌+◌, ◌*◌, ◌/◌, ◌%◌, ◌^◌, Bool, true, false, not, Option, none, some, List, [], ◌∷◌,
  ◌==◌, if◌then◌else◌, u8, u16,
}

-- `current_checksum`, `checksum_carry` and `checksum_flip` (`true` is S0, the next byte is high).
pub record Sum : Type 0 where
  pub high : ℕ
  pub low : ℕ
  pub carry : ℕ
  pub flip : Bool

unfoldable pub checksum_init : Sum
checksum_init = record { high = 0; low = 0; carry = 0; flip = true }

-- with `checksum_flip` as an argument
unfoldable pub add_at : Bool → Sum → ℕ → Sum
add_at true s val =
    let tmp_sum = u16 (s.high + val + s.carry) in
    record s { high = u8 tmp_sum; carry = tmp_sum / 2 ^ 8; flip = false }
add_at false s val =
    let tmp_sum = u16 (s.low + val + s.carry) in
    record s { low = u8 tmp_sum; carry = tmp_sum / 2 ^ 8; flip = true }

unfoldable pub checksum_add : Sum → ℕ → Sum
unfolding add_at
checksum_add s val = add_at s.flip s val

-- `checksum_add16` and `checksum_add32` do the same with what they add to the two bytes.
unfoldable pub add_both : Sum → ℕ → ℕ → Sum
add_both s h l =
    let sum_high = u16 (s.high + h + s.carry) in
    let sum_low = u16 (s.low + l + sum_high / 2 ^ 8) in
    record s { high = u8 sum_high; low = u8 sum_low; carry = sum_low / 2 ^ 8 }

unfoldable pub checksum_add16 : Sum → ℕ → Sum
unfolding add_both
checksum_add16 s val = add_both s (val / 2 ^ 8) (val % 2 ^ 8)

-- The bytes from the most significant, `val[W0]`, to the least, `val[W3]`.
unfoldable pub checksum_add32 : Sum → ℕ → ℕ → ℕ → ℕ → Sum
unfolding add_both
checksum_add32 s w0 w1 w2 w3 = add_both s (w0 + w2) (w1 + w3)

-- `while (checksum_carry) checksum_add(0)`; `none` if the fuel runs out
unfoldable pub checksum_end : ℕ → Sum → Option Sum
unfolding checksum_add
checksum_end zero s = none
checksum_end (suc fuel) s =
    let rest = checksum_end fuel (checksum_add s 0) in if s.carry == 0 then some s else rest

-- `UI16(current_checksum)` read as the number with the bytes `high` and `low`
abbrev pub word : Sum → ℕ
word s = s.high * 2 ^ 8 + s.low
