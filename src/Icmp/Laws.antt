-- ===== src/Icmp/Laws.antt =====
-- The reply to an echo request, as its receiver sums it up.
use smews.Base.{ℕ, ◌+◌, ◌/◌, ◌^◌, ◌≤◌, ◌≡◌, true, List, ◌∷◌, map, ◌==◌, if◌then◌else◌, length, u8}
use smews.Checksum.{checksum_init}
use smews.Checksum.Ones.{Item, byte, pair, feed_all, amount_all, EndsWith}
use smews.Icmp.{Echo, join, icmp4_packet_out}

abbrev verdict : ℕ → ℕ
verdict w = if w == 0xffff then 1 else 0

-- the fields of a header, as they are added
abbrev fields : ℕ → ℕ → Echo → List Item
fields kind code e =
    byte kind
    ∷ byte code
    ∷ pair e.checksum
    ∷ pair e.identifier
    ∷ pair e.sequence_number
    ∷ map byte e.icmp_payload

-- the bytes behind the checksum weigh the same in the request and in the reply
abbrev rest_amount : Echo → ℕ
rest_amount e = e.identifier + e.sequence_number + amount_all true (map byte e.icmp_payload)

-- The variables that a request sets
abbrev pub echo_of : ℕ → ℕ → ℕ → ℕ → ℕ → ℕ → List ℕ → Echo
echo_of c1 c0 i1 i0 s1 s0 data_bytes = record {
  icmp_payload = data_bytes;
  sequence_number = join s1 s0;
  identifier = join i1 i0;
  checksum = join c1 c0;
}

-- a reply with its sum
pub record Replied (e : Echo) (data_bytes : List ℕ) (i1 i0 s1 s0 : ℕ) : Type 0 where
  pub checksum : ℕ
  pub reply :
      icmp4_packet_out e
      ≡ 0 ∷ 0 ∷ u8 (checksum / 2 ^ 8) ∷ u8 checksum ∷ i1 ∷ i0 ∷ s1 ∷ s0 ∷ data_bytes
  pub verifies : EndsWith 4 (feed_all checksum_init (map byte (icmp4_packet_out e))) 0xffff

module _ (size c1 c0 i1 i0 s1 s0 : ℕ) (data_bytes : List ℕ) (room : length data_bytes ≤ size) where
  abbrev echo : Echo
  echo = echo_of c1 c0 i1 i0 s1 s0 data_bytes

  abbrev request : List ℕ
  request = 8 ∷ 0 ∷ c1 ∷ c0 ∷ i1 ∷ i0 ∷ s1 ∷ s0 ∷ data_bytes
