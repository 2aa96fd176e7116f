-- ===== src/Send/Verify/Packet.antt =====
-- The whole packet of a generator's segment, as its receiver sums it up.
use smews.Base.{
  ℕ, suc, ◌+◌, ◌≡◌, ◌<◌, refl, ap, ◌∙◌, arith, Bool, Option, none, some, List, ◌++◌, length, take,
}
use smews.Checksum.{Sum, checksum_init, checksum_end, word}
use smews.Checksum.Ones.{feed_all, EndsWith}
use smews.Handlers.{HandlerData, generator, Persistence}
use smews.Service.{ServiceHeader}
use smews.Connections.{HttpConnection}
use smews.Send.Packet.{CurrOutput, segment_length, ip_header, ip_bytes, add16}
use smews.Send.Packet.Header.{ip_header-verifies}
use smews.Send.Segment.{Target, tcp_header_sum, contents_sum, tcp_bytes, contents, tcp_packet}
use smews.Send.Generate.{Point, next_segment, is_terminated, select_header}
use smews.Send.Generate.Written.{
  IsBytes, IsPoint, IsBytes-take, holding, after, take-length, next_segment-holding,
}
use smews.Send.Verify.{verified, received}
use smews.Send.Verify.Line.{content_bytes, content_items, length_digits-feed}
use smews.Send.Verify.Contents.{content-Weighs, contents-bytes, length-bytes}

both-some :
    (f : Sum → List ℕ) (o : Option (List ℕ)) (o' : Option Sum) (ip : List ℕ) (r : Sum)
    → o ≡ some ip
    → o' ≡ some r
    → elim o [ none ↦ none | some i ↦ elim o' [ none ↦ none | some q ↦ some (i ++ f q) ] ]
      ≡ some (ip ++ f r)
both-some f o o' ip r e e' = rw (e, e') refl

abbrev segment_with : ℕ → ℕ → ℕ → CurrOutput → Target → HandlerData → HttpConnection → Sum → List ℕ
segment_with nbits local_ip len out t d h r =
    tcp_bytes t d (word r)
    ++ contents out d h len (contents_sum nbits out d h len (tcp_header_sum local_ip t d len)).0

tcp_packet-some :
    (nbits local_ip : ℕ) (out : CurrOutput) (t : Target) (d : HandlerData) (h : HttpConnection)
    (ip : List ℕ) (r : Sum)
    → ip_header none (segment_length nbits out d h + 40) local_ip t.ip_addr ≡ some ip
    → checksum_end 4
        (contents_sum nbits out d h
          (segment_length nbits out d h)
          (tcp_header_sum local_ip t d (segment_length nbits out d h))).1
      ≡ some r
    → tcp_packet nbits local_ip out t d h
      ≡ some (ip ++ segment_with nbits local_ip (segment_length nbits out d h) out t d h r)
unfolding tcp_packet
tcp_packet-some nbits local_ip out t d h ip r heads ends =
    both-some (segment_with nbits local_ip (segment_length nbits out d h) out t d h)
      (ip_header none (segment_length nbits out d h + 40) local_ip t.ip_addr)
      (checksum_end 4
        (contents_sum nbits out d h (segment_length nbits out d h)
          (tcp_header_sum local_ip t d (segment_length nbits out d h))).1)
      ip r heads ends

-- A packet that its receiver accepts, in front of which the header of IP stands
pub record Accepted (nbits local_ip : ℕ) (out : CurrOutput) (t : Target) (prop : Persistence)
    (h : HttpConnection) : Type 0 where
  pub ip : List ℕ
  pub segment : List ℕ
  pub heads :
      ip_header none (segment_length nbits out (generator prop) h + 40) local_ip t.ip_addr ≡ some ip
  pub packet : tcp_packet nbits local_ip out t (generator prop) h ≡ some (ip ++ segment)
  pub counts : length segment ≡ segment_length nbits out (generator prop) h + 20
  pub verifies : EndsWith 4 (feed_all checksum_init (received local_ip t.ip_addr segment)) 0xffff

holding-Accepted :
    (nbits local_ip : ℕ) (header : ServiceHeader) (out : CurrOutput) (cs : List ℕ) (t : Target)
    (prop : Persistence) (h : HttpConnection)
    → IsBytes cs
    → length cs < 65000
    → Accepted nbits local_ip (record (holding out cs) { service_header = header }) t prop h
unfolding contents_sum
holding-Accepted nbits local_ip header out cs t prop h bytes short =
    let o = record (holding out cs) { service_header = header } in
    let len = segment_length nbits o (generator prop) h in
    let head = tcp_header_sum local_ip t (generator prop) len in
    let counted = length-bytes nbits header h prop out cs short in
    let (w, heads, _) = ip_header-verifies (len + 40) local_ip t.ip_addr in
    let summed =
      verified local_ip len t prop (content_items o) (content_bytes header cs)
        (content-Weighs header out cs bytes) counted in
    record {
      ip = ip_bytes none (len + 40) local_ip t.ip_addr w;
      segment = tcp_bytes t (generator prop) (word summed.sum) ++ content_bytes header cs;
      heads = heads;
      packet =
          tcp_packet-some nbits local_ip o t (generator prop) h
            (ip_bytes none (len + 40) local_ip t.ip_addr w) summed.sum heads
            (ap (checksum_end 4) (length_digits-feed header (length cs) (add16 head o.checksum))
              ∙ summed.returns)
          ∙ ap
              (λ bs. some (
                ip_bytes none (len + 40) local_ip t.ip_addr w
                ++ (tcp_bytes t (generator prop) (word summed.sum) ++ bs)))
              (contents-bytes header (add16 head o.checksum) h prop len out cs);
      counts = omega (arith, counted);
      verifies = summed.verifies;
    }

-- The packet of a segment that a handler wrote, of up to 64999 characters, is made, whatever its
-- header of HTTP is. Behind the header of IP its receiver finds a segment of TCP of the length that was
-- announced, and its sum over the pseudo-header and every byte is 0xffff.
pub tcp_packet-Accepted :
    (nbits local_ip room : ℕ) (stream : Bool) (out : CurrOutput) (p : Point) (t : Target)
    (prop : Persistence) (h : HttpConnection)
    → IsPoint p
    → IsBytes p.rest
    → out.max_bytes ≡ suc room
    → suc room < 65000
    → (sent : CurrOutput) × (q : Point) × (next_segment stream out p ≡ some (sent, q))
      × Accepted nbits local_ip sent t prop h
tcp_packet-Accepted nbits local_ip room stream out p t prop h point bytes m short =
    let cs = take (suc room) p.rest in
    let q = after (suc room) p.rest in
    let header = select_header stream (is_terminated q.status) out.service_header in
    (
      record (holding out cs) { service_header = header },
      q,
      next_segment-holding stream room out p point bytes m (omega arith),
      holding-Accepted nbits local_ip header out cs t prop h (IsBytes-take (suc room) p.rest bytes)
          (omega (arith, take-length (suc room) p.rest)),
    )
