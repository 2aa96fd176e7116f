-- ===== src/Send/Packet/Header.antt =====
-- The header of IP that is sent, as the receiver sums it up.
use mathlib.Core.Path.{subst}
use smews.Base.{
  ℕ, ◌+◌, ◌-◌, ◌/◌, ◌^◌, ◌≡◌, ◌≤◌, ◌<◌, refl, ap, ◌∙◌, arith, true, none, some, List, [], ◌∷◌, map,
  u8, u16,
}
use smews.Checksum.{Sum, checksum_init, checksum_end, word}
use smews.Checksum.Ones.{
  Item, byte, pair, quad, feed_all, FitsAll, amount_all, ones_sum, preset, EndsWith,
  checksum_end-ones_sum,
}
use smews.Send.Packet.{ip_sum, ip_header_sum, ip_bytes, ip_header, basic_ip_chk}

-- what is added to the header's sum
abbrev sent : ℕ → ℕ → ℕ → List Item
sent total_length local_ip ip =
    quad (u8 (local_ip / 2 ^ 24)) (u8 (local_ip / 2 ^ 16)) (u8 (local_ip / 2 ^ 8)) (u8 local_ip)
    ∷ pair (u16 total_length)
    ∷ quad (u8 (ip / 2 ^ 24)) (u8 (ip / 2 ^ 16)) (u8 (ip / 2 ^ 8)) (u8 ip)
    ∷ []

sent-tcp :
    (total_length local_ip ip : ℕ)
    → ip_header_sum none total_length local_ip ip
      ≡ feed_all (preset basic_ip_chk) (sent total_length local_ip ip)
unfolding ip_header_sum ip_sum checksum_init
sent-tcp total_length local_ip ip = refl

fits : (total_length local_ip ip : ℕ) → FitsAll true (sent total_length local_ip ip)
fits total_length local_ip ip = (
  (refl, omega arith, omega arith, omega arith, omega arith),
  ((refl, omega arith), ((refl, omega arith, omega arith, omega arith, omega arith), tt)),
)

complement : (t : ℕ) → 0 < t → ones_sum (t + (0xffff - ones_sum t)) ≡ 0xffff
complement t pos = ground arith

ones_sum-le : (t : ℕ) → ones_sum t ≤ 0xffff
ones_sum-le t = ground arith

-- The bytes of the header, with any 16-bit checksum field, add up to what was added before it was sent, and that.
ip_bytes-amount :
    (total_length local_ip ip w : ℕ)
    → w ≤ 0xffff
    → amount_all true (map byte (ip_bytes none total_length local_ip ip w))
      ≡ basic_ip_chk + amount_all true (sent total_length local_ip ip) + (0xffff - w)
ip_bytes-amount total_length local_ip ip w le = omega arith

ip_bytes-FitsAll :
    (total_length local_ip ip w : ℕ)
    → FitsAll true (map byte (ip_bytes none total_length local_ip ip w))
ip_bytes-FitsAll total_length local_ip ip w = omega arith

ip_header-some :
    (total_length local_ip ip : ℕ) (s : Sum)
    → checksum_end 4 (ip_header_sum none total_length local_ip ip) ≡ some s
    → ip_header none total_length local_ip ip
      ≡ some (ip_bytes none total_length local_ip ip (word s))
unfolding ip_header
ip_header-some total_length local_ip ip s e = rw (ip_header, e) refl

ip_bytes-sum :
    (total_length local_ip ip w : ℕ)
    → w ≡ ones_sum (basic_ip_chk + amount_all true (sent total_length local_ip ip))
    → ones_sum (0 + amount_all true (map byte (ip_bytes none total_length local_ip ip w))) ≡ 0xffff
ip_bytes-sum total_length local_ip ip w is =
    let t = basic_ip_chk + amount_all true (sent total_length local_ip ip) in
    let le : w ≤ 0xffff = rw is (ones_sum-le t) in
    let amounts : 0 + amount_all true (map byte (ip_bytes none total_length local_ip ip w))
        ≡ t + (0xffff - w) =
      omega (arith, ip_bytes-amount total_length local_ip ip w le) in
    ap ones_sum amounts ∙ ap (λ v. ones_sum (t + (0xffff - v))) is ∙ complement t (omega arith)

ip_bytes-EndsWith :
    (total_length local_ip ip w : ℕ)
    → w ≡ ones_sum (basic_ip_chk + amount_all true (sent total_length local_ip ip))
    → EndsWith 4
        (feed_all checksum_init (map byte (ip_bytes none total_length local_ip ip w)))
        0xffff
unfolding checksum_init
ip_bytes-EndsWith total_length local_ip ip w is =
    let bytes = map byte (ip_bytes none total_length local_ip ip w) in
    subst (EndsWith 4 (feed_all (preset 0) bytes)) (ip_bytes-sum total_length local_ip ip w is) (
      checksum_end-ones_sum 4 0 bytes (omega arith) (omega arith)
        (ip_bytes-FitsAll total_length local_ip ip w))

-- The header of IP that is sent for a segment of TCP, with the checksum that completes the sum
-- calculated in advance: the receiver, who adds up its twenty bytes one by one, ends with 0xffff.
pub ip_header-verifies :
    (total_length local_ip ip : ℕ)
    → (w : ℕ) × (ip_header none total_length local_ip ip
        ≡ some (ip_bytes none total_length local_ip ip w))
      × EndsWith 4
          (feed_all checksum_init (map byte (ip_bytes none total_length local_ip ip w)))
          0xffff
ip_header-verifies total_length local_ip ip =
    let (r, returns, high, low, is) =
      checksum_end-ones_sum 4 basic_ip_chk (sent total_length local_ip ip) (omega arith)
        (omega arith) (fits total_length local_ip ip) in
    (
      word r,
      ip_header-some total_length local_ip ip r (rw (sent-tcp total_length local_ip ip) returns),
      ip_bytes-EndsWith total_length local_ip ip (word r) is,
    )
