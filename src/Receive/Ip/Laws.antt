-- ===== src/Receive/Ip/Laws.antt =====
-- The header that one node sends is accepted by another.
use smews.Base.{
  ℕ, ◌+◌, ◌-◌, ◌*◌, ◌/◌, ◌^◌, ◌≡◌, ◌≤◌, ◌<◌, refl, ap₂, ◌∙◌, arith, true, none, some, List, [], ◌∷◌,
  ◌++◌, map, ◌==◌, u8, sub16,
}
use smews.Checksum.{Sum, checksum_init, checksum_add, checksum_end, word}
use smews.Checksum.Ones.{byte, feed_all, EndsWith}
use smews.Send.Packet.{ip_header, ip_bytes}
use smews.Send.Packet.Header.{ip_header-verifies}
use smews.Receive.Ip.{sum_bytes, is_checksum_right, is_whole, number32, receive_ip}

sum_bytes-feed_all : (s : Sum) (bs : List ℕ) → sum_bytes s bs ≡ feed_all s (map byte bs)
unfolding sum_bytes
sum_bytes-feed_all s [] = refl
sum_bytes-feed_all s (b ∷ bs) = sum_bytes-feed_all (checksum_add s b) bs

sums-right :
    (bs : List ℕ) (r : Sum)
    → checksum_end 4 (sum_bytes checksum_init bs) ≡ some r
    → is_checksum_right bs ≡ (word r == 0xffff)
unfolding is_checksum_right
sums-right bs r e = rw (is_checksum_right, e) refl

EndsWith-right :
    (bs : List ℕ)
    → EndsWith 4 (feed_all checksum_init (map byte bs)) 0xffff
    → is_checksum_right bs ≡ true
EndsWith-right bs (r, returns, high, low, is) =
    sums-right bs r (rw (sum_bytes-feed_all checksum_init bs) returns) ∙ rw is refl

accepted :
    (total_length local_ip ip w : ℕ) (rest : List ℕ)
    → is_checksum_right (ip_bytes none total_length local_ip ip w) ≡ true
    → receive_ip (ip_bytes none total_length local_ip ip w ++ rest)
      ≡ some (
        record {
          packet_length = sub16 (u8 (total_length / 2 ^ 8) * 2 ^ 8 + u8 total_length) 20;
          protocol = 6;
          source_ip =
              number32
                (u8 (local_ip / 2 ^ 24))
                (u8 (local_ip / 2 ^ 16))
                (u8 (local_ip / 2 ^ 8))
                (u8 local_ip);
        },
        rest,
      )
unfolding receive_ip is_whole
accepted total_length local_ip ip w rest e = rw e refl

number32-put32 :
    (a : ℕ) → a < 2 ^ 32 → number32 (u8 (a / 2 ^ 24)) (u8 (a / 2 ^ 16)) (u8 (a / 2 ^ 8)) (u8 a) ≡ a
number32-put32 a wide = omega arith

length-put16 : (n : ℕ) → 20 ≤ n → n < 2 ^ 16 → sub16 (u8 (n / 2 ^ 8) * 2 ^ 8 + u8 n) 20 ≡ n - 20
length-put16 n low small = omega arith

-- The header that is sent for a segment of TCP of `total_length` bytes in all, 20 of them the header,
-- is accepted from in front of any contents: the receiver gets the length of the rest, TCP as the
-- protocol and the sender's address.
pub receive_ip-ip_header :
    (total_length local_ip ip : ℕ) (rest : List ℕ)
    → 20 ≤ total_length
    → total_length < 2 ^ 16
    → local_ip < 2 ^ 32
    → (bytes : List ℕ) × (ip_header none total_length local_ip ip ≡ some bytes)
      × (receive_ip (bytes ++ rest)
          ≡ some (
            record { packet_length = total_length - 20; protocol = 6; source_ip = local_ip },
            rest,
          ))
receive_ip-ip_header total_length local_ip ip rest low small wide =
    let (w, sends, sums) = ip_header-verifies total_length local_ip ip in
    (
      ip_bytes none total_length local_ip ip w,
      sends,
      accepted total_length local_ip ip w rest
            (EndsWith-right (ip_bytes none total_length local_ip ip w) sums)
          ∙ ap₂ (λ n a. some (record { packet_length = n; protocol = 6; source_ip = a }, rest))
              (length-put16 total_length low small) (number32-put32 local_ip wide),
    )
