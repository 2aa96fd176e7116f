-- ===== src/Receive/Ip.antt =====
-- The header of IPv4 as `smews_receive` of core/input.c reads it. Every byte goes through the checksum
-- (DEV_GETC); a packet that is refused is left to the driver.
pub mod Laws
mod Tests
use smews.Base.{
  ℕ, zero, suc, ◌+◌, ◌-◌, ◌*◌, ◌/◌, ◌%◌, ◌^◌, bit_and, Bool, true, false, not, ◌&&◌, ◌||◌, Option,
  none, some, List, [], ◌∷◌, ◌++◌, ◌==◌, if◌then◌else◌, sub16,
}
use smews.Checksum.{Sum, checksum_init, checksum_add, checksum_end, word}

-- what is kept of the header
pub record IpPacket : Type 0 where
  pub packet_length : ℕ
  pub protocol : ℕ
  pub source_ip : ℕ

unfoldable pub sum_bytes : Sum → List ℕ → Sum
unfolding checksum_add
sum_bytes s [] = s
sum_bytes s (b ∷ bs) = sum_bytes (checksum_add s b) bs

unfoldable pub is_checksum_right : List ℕ → Bool
unfolding checksum_init checksum_end sum_bytes
is_checksum_right bytes = elim (checksum_end 4 (sum_bytes checksum_init bytes)) [
  | none ↦ false
  | some s ↦ word s == 0xffff
]

-- neither a fragment nor followed by one
unfoldable pub is_whole : ℕ → ℕ → Bool
is_whole flags offset = (bit_and flags 0x20 == 0) && (bit_and flags 0x1f == 0) && (offset == 0)

abbrev pub number32 : ℕ → ℕ → ℕ → ℕ → ℕ
number32 a b c d = ((a * 2 ^ 8 + b) * 2 ^ 8 + c) * 2 ^ 8 + d

-- the header, and what follows it; `none` drops the packet
unfoldable pub receive_ip : List ℕ → Option (IpPacket × List ℕ)
unfolding is_checksum_right is_whole
receive_ip
      (vhl ∷ tos ∷ l1 ∷ l0 ∷ i1 ∷ i0 ∷ f ∷ o ∷ ttl ∷ p ∷ c1 ∷ c0 ∷ s3 ∷ s2 ∷ s1 ∷ s0 ∷ d3 ∷ d2 ∷ d1
        ∷ d0 ∷ rest) =
    if not (vhl == 0x45)
    then none
    else if not (is_whole f o)
    then none
    else if is_checksum_right (
        vhl ∷ tos ∷ l1 ∷ l0 ∷ i1 ∷ i0 ∷ f ∷ o ∷ ttl ∷ p ∷ c1 ∷ c0 ∷ s3 ∷ s2 ∷ s1 ∷ s0 ∷ d3 ∷ d2 ∷ d1
        ∷ d0 ∷ [])
    then some (
      record {
        packet_length = sub16 (l1 * 2 ^ 8 + l0) 20;
        protocol = p;
        source_ip = number32 s3 s2 s1 s0;
      },
      rest,
    )
    else none
receive_ip _ = none
