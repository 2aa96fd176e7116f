-- ===== src/Send/Verify.antt =====
-- The checksum of TCP that core/output.c sends, as a receiver sums it up over the pseudo-header and
-- the bytes of the segment.
pub mod Line
pub mod Contents
pub mod Packet
mod Tests
use mathlib.Core.Path.{subst}
use smews.Base.{
  ℕ, zero, suc, ◌+◌, ◌-◌, ◌*◌, ◌/◌, ◌%◌, ◌^◌, ◌≡◌, ◌≤◌, ◌<◌, refl, sym, ap, ◌∙◌, arith, Bool, true,
  false, not, Option, none, some, List, [], ◌∷◌, ◌++◌, map, length, length-append, u8, u16, u32,
}
use smews.Checksum.{Sum, checksum_init, checksum_end, word}
use smews.Checksum.Ones.{
  Item, byte, pair, quad, feed, feed_all, Fits, FitsAll, amount_all, end_flip, ones_sum, preset,
  EndsWith, checksum_end-ones_sum, FitsAll-append, amount_all-append,
}
use smews.Handlers.{HandlerData, generator, Persistence, get_flags}
use smews.Receive.Tcp.{has_flag}
use smews.Connections.{HttpConnection}
use smews.Send.Packet.{CurrOutput, put16, put32, segment_length, ip_header, ip_bytes}
use smews.Send.Packet.Header.{ip_header-verifies}
use smews.Send.Segment.{Target, tcp_header_sum, contents_sum, tcp_bytes, contents, tcp_packet}
use smews.Send.Generate.Written.{IsBytes, FitsAll-bytes}

abbrev quad_of : ℕ → Item
quad_of w = quad (u8 (w / 2 ^ 24)) (u8 (w / 2 ^ 16)) (u8 (w / 2 ^ 8)) (u8 w)

-- what the receiver of `bytes` sums up: the addresses, the protocol, the length and the bytes
abbrev pub received : ℕ → ℕ → List ℕ → List Item
received local_ip ip bytes =
    quad_of local_ip ∷ quad_of ip ∷ pair 6 ∷ pair (u16 (length bytes)) ∷ map byte bytes

-- what the server adds to the sum for the header of a generator's segment
abbrev header_items : ℕ → Target → ℕ → List Item
header_items local_ip t len =
    quad_of local_ip
    ∷ pair (u16 (len + 20))
    ∷ quad_of t.next_outseqno
    ∷ byte 0x50
    ∷ byte 0x18
    ∷ quad_of t.ip_addr
    ∷ pair (u16 t.port)
    ∷ quad_of t.current_inseqno
    ∷ []

tcp_header_sum-generator :
    (local_ip len : ℕ) (t : Target) (prop : Persistence)
    → tcp_header_sum local_ip t (generator prop) len
      ≡ feed_all (preset 0x1056) (header_items local_ip t len)
unfolding tcp_header_sum get_flags checksum_init
tcp_header_sum-generator local_ip len t prop = refl

Fits-quad : (w : ℕ) → Fits true (quad_of w)
Fits-quad w = (refl, omega arith, omega arith, omega arith, omega arith)

header-fits : (local_ip len : ℕ) (t : Target) → FitsAll true (header_items local_ip t len)
header-fits local_ip len t = (
  Fits-quad local_ip,
  (
    (refl, omega arith),
    (
      Fits-quad t.next_outseqno,
      (
        omega arith,
        (
          omega arith,
          (Fits-quad t.ip_addr, ((refl, omega arith), (Fits-quad t.current_inseqno, tt))),
        ),
      ),
    ),
  ),
)

-- What is added for the contents, `items`, weighs what the bytes of the contents weigh, but for
-- multiples of 65535.
pub record Weighs (items : List Item) (bytes : List ℕ) : Type 0 where
  pub item_fits : FitsAll true items
  pub byte_fits : IsBytes bytes
  pub more : ℕ
  pub less : ℕ
  pub same : amount_all true (map byte bytes) + more * 65535 ≡ amount_all true items + less * 65535

feed_all-append :
    (s : Sum) (xs ys : List Item) → feed_all s (xs ++ ys) ≡ feed_all (feed_all s xs) ys
feed_all-append s [] ys = refl
feed_all-append s (x ∷ xs) ys = feed_all-append (feed s x) xs ys

ones_sum-complement :
    (x y more less : ℕ)
    → 0 < x
    → 0 < y
    → x + more * 65535 ≡ y + less * 65535
    → ones_sum (x + (0xffff - ones_sum y)) ≡ 0xffff
ones_sum-complement x y more less px py e = ground arith

ones_sum-le : (t : ℕ) → ones_sum t ≤ 0xffff
ones_sum-le t = ground arith

-- the bytes of a segment with the word `w` as the sum
abbrev segment_bytes : Target → HandlerData → ℕ → List ℕ → List ℕ
segment_bytes t d w bytes = tcp_bytes t d w ++ bytes

-- both sums: the receiver's, without the word, is the sender's with the protocol, port and window
received-amount :
    (local_ip len w : ℕ) (t : Target) (prop : Persistence) (bytes : List ℕ)
    → w ≤ 0xffff
    → len ≡ length bytes
    → amount_all true (received local_ip t.ip_addr (segment_bytes t (generator prop) w bytes))
      ≡ 0x1056
        + amount_all true (header_items local_ip t len)
        + (0xffff - w)
        + amount_all true (map byte bytes)
unfolding get_flags has_flag
received-amount local_ip len w t prop bytes le e = omega arith

-- the sum that is sent
pub record Summed (local_ip : ℕ) (t : Target) (prop : Persistence) (len : ℕ) (s : Sum)
    (bytes : List ℕ) : Type 0 where
  pub sum : Sum
  pub returns : checksum_end 4 s ≡ some sum
  pub verifies :
      EndsWith 4
        (feed_all checksum_init
          (received local_ip t.ip_addr (segment_bytes t (generator prop) (word sum) bytes)))
        0xffff

IsBytes-append : (xs ys : List ℕ) → IsBytes xs → IsBytes ys → IsBytes (xs ++ ys)
IsBytes-append [] ys a b = b
IsBytes-append (x ∷ xs) ys a b = (a.0, IsBytes-append xs ys a.1 b)

tcp_bytes-IsBytes :
    (t : Target) (prop : Persistence) (w : ℕ) → IsBytes (tcp_bytes t (generator prop) w)
unfolding get_flags has_flag
tcp_bytes-IsBytes t prop w = omega arith

ones_sum-low : (w y : ℕ) → w ≡ ones_sum y → w ≤ 0xffff
ones_sum-low w y e = rw e (ones_sum-le y)

module _ (local_ip len : ℕ) (t : Target) (prop : Persistence) (items : List Item)
    (bytes : List ℕ) where
  sent-ends :
      FitsAll true items
      → EndsWith 4
          (feed_all (tcp_header_sum local_ip t (generator prop) len) items)
          (ones_sum (0x1056 + amount_all true (header_items local_ip t len ++ items)))
  sent-ends fits =
      subst
        (λ s.
          EndsWith 4 s (ones_sum (0x1056 + amount_all true (header_items local_ip t len ++ items))))
        (feed_all-append (preset 0x1056) (header_items local_ip t len) items
          ∙ ap (λ s. feed_all s items) (sym (tcp_header_sum-generator local_ip len t prop)))
        (checksum_end-ones_sum 4 0x1056 (header_items local_ip t len ++ items) (omega arith)
          (omega arith)
          (FitsAll-append true (header_items local_ip t len) items refl (header-fits local_ip len t)
            fits))

  received-fits :
      (w : ℕ)
      → IsBytes bytes
      → FitsAll true (received local_ip t.ip_addr (segment_bytes t (generator prop) w bytes))
  received-fits w fits =
      let all = segment_bytes t (generator prop) w bytes in
      (
        Fits-quad local_ip,
        (
          Fits-quad t.ip_addr,
          (
            (refl, omega arith),
            (
              (refl, omega arith),
              FitsAll-bytes true all (
                  IsBytes-append (tcp_bytes t (generator prop) w) bytes (tcp_bytes-IsBytes t prop w)
                    fits),
            ),
          ),
        ),
      )

  received-ends :
      (w : ℕ)
      → Weighs items bytes
      → len ≡ length bytes
      → w ≡ ones_sum (0x1056 + amount_all true (header_items local_ip t len ++ items))
      → ones_sum (
          0
          + amount_all true
              (received local_ip t.ip_addr (segment_bytes t (generator prop) w bytes)))
        ≡ 0xffff
  received-ends w weighs l is =
      let head = 0x1056 + amount_all true (header_items local_ip t len) in
      let sent = 0x1056 + amount_all true (header_items local_ip t len ++ items) in
      let body = amount_all true (map byte bytes) in
      let got =
        amount_all true (received local_ip t.ip_addr (segment_bytes t (generator prop) w bytes)) in
      let appended : sent ≡ head + amount_all true items =
        omega (arith, amount_all-append true (header_items local_ip t len) items refl) in
      let amounts : 0 + got ≡ head + body + (0xffff - w) = omega (
        arith,
        received-amount local_ip len w t prop bytes
            (ones_sum-low w (0x1056 + amount_all true (header_items local_ip t len ++ items)) is) l,
      ) in
      ap ones_sum amounts
      ∙ ap (λ v. ones_sum (head + body + (0xffff - v))) is
      ∙ ones_sum-complement (head + body) sent weighs.more weighs.less (omega arith) (omega arith)
          (omega (arith, appended, weighs.same))

  pub verified :
      Weighs items bytes
      → len ≡ length bytes
      → Summed local_ip t prop len
          (feed_all (tcp_header_sum local_ip t (generator prop) len) items)
          bytes
  unfolding checksum_init
  verified weighs l =
      let (r, returns, _, _, is) = sent-ends weighs.item_fits in
      record {
        sum = r;
        returns = returns;
        verifies =
            subst
              (EndsWith 4 (
                feed_all (preset 0)
                  (received local_ip t.ip_addr (segment_bytes t (generator prop) (word r) bytes))))
              (received-ends (word r) weighs l is)
              (checksum_end-ones_sum 4 0
                (received local_ip t.ip_addr (segment_bytes t (generator prop) (word r) bytes))
                (omega arith) (omega arith) (received-fits (word r) weighs.byte_fits));
      }
