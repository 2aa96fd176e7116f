-- ===== src/Send/Generate/Fitting.antt =====
-- The bounds on a segment of a generator: the buffer, and the maximum segment size.
use smews.Base.{
  ℕ, zero, suc, ◌+◌, ◌-◌, ◌^◌, ◌≡◌, ◌≤◌, ◌<◌, refl, ap, ◌∙◌, arith, Bool, true, false, some, List,
  [], ◌∷◌, length, take, min, le→not_ltb, lt→ltb,
}
use smews.Service.{ServiceHeader, header_none, header_standard, header_chunks}
use smews.Handlers.{Persistence, generator}
use smews.Connections.{HttpConnection}
use smews.Send.Packet.{CurrOutput, service_headers_size, max_out_size, segment_length}
use smews.Send.Generate.{Point, next_segment, is_terminated, select_header, max_bytes}
use smews.Send.Generate.Written.{
  after, holding, IsBytes, IsPoint, take-length, next_segment-holding,
}

-- what a segment has room for when a header fits in it
pub record Fitting (nbits size mss : ℕ) (header : ServiceHeader) : Type 0 where
  pub room : ℕ
  pub is : max_bytes nbits size mss header ≡ suc room
  pub in_buffer : suc room ≤ size
  pub in_segment : suc room + service_headers_size header ≤ max_out_size nbits mss
  pub narrow : suc room < 2 ^ 16

pub max_bytes-Fitting :
    (nbits size mss : ℕ) (header : ServiceHeader)
    → service_headers_size header < max_out_size nbits mss
    → 0 < size
    → size < 2 ^ 16
    → Fitting nbits size mss header
unfolding max_bytes
max_bytes-Fitting nbits size mss header room pos small =
    let hs = service_headers_size header in
    let n = min size (max_out_size nbits mss - hs) in
    record {
      room = n - 1;
      is = rw (le→not_ltb (max_out_size nbits mss) hs (omega arith)) (omega arith);
      in_buffer = omega arith;
      in_segment = omega arith;
      narrow = omega arith;
    }

-- A segment that may be the first has room for the header of a first chunk, any other for that of a chunk.
abbrev pub HasRoom : ServiceHeader → ServiceHeader → Type 0
HasRoom header_chunks header_standard = Unit {0}
HasRoom header_none header_chunks = Unit {0}
HasRoom header_none header_none = Unit {0}
HasRoom _ _ = ⊥

select_header-size :
    (stream b : Bool) (header next : ServiceHeader)
    → HasRoom header next
    → service_headers_size (select_header stream b next) ≤ service_headers_size header
unfolding service_headers_size select_header
select_header-size true true header_chunks header_standard h = omega arith
select_header-size false true header_chunks header_standard h = omega arith
select_header-size stream false header_chunks header_standard h = omega arith
select_header-size stream b header_none header_chunks h = omega arith
select_header-size stream b header_none header_none h = omega arith
select_header-size stream b header_none header_standard h = absurd h
select_header-size stream b header_chunks header_chunks h = absurd h
select_header-size stream b header_chunks header_none h = absurd h
select_header-size stream b header_standard next h = absurd h

-- a segment that is in its buffer and in the maximum segment size
pub record Bounded (nbits size mss : ℕ) (prop : Persistence) (h : HttpConnection)
    (sent : CurrOutput) : Type 0 where
  pub in_buffer : length sent.buffer ≤ size
  pub counted : sent.content_length ≡ length sent.buffer
  pub in_mss : segment_length nbits sent (generator prop) h ≤ max_out_size nbits mss

holding-Bounded :
    (nbits size mss n : ℕ) (prop : Persistence) (h : HttpConnection) (out : CurrOutput)
    (cs : List ℕ) (header : ServiceHeader)
    → length cs ≤ n
    → n ≤ size
    → n + service_headers_size header ≤ max_out_size nbits mss
    → Bounded nbits size mss prop h (record (holding out cs) { service_header = header })
unfolding segment_length
holding-Bounded nbits size mss n prop h out cs header l small fits = record {
  in_buffer = omega arith;
  counted = refl;
  in_mss = omega arith;
}

-- A segment of a generator stays within its buffer and, with its header, within the maximum segment size, when
-- that size has room for the header that is counted on and a byte, and the header that is counted on is that of a first
-- chunk for the first segment of a response, and that of a chunk for a segment behind it.
pub next_segment-Bounded :
    (nbits size mss : ℕ) (stream : Bool) (header : ServiceHeader) (prop : Persistence)
    (h : HttpConnection) (out : CurrOutput) (p : Point)
    → HasRoom header out.service_header
    → out.max_bytes ≡ max_bytes nbits size mss header
    → service_headers_size header < max_out_size nbits mss
    → 0 < size
    → size < 2 ^ 16
    → IsPoint p
    → IsBytes p.rest
    → (sent : CurrOutput) × (q : Point) × (next_segment stream out p ≡ some (sent, q))
      × Bounded nbits size mss prop h sent
next_segment-Bounded nbits size mss stream header prop h out p has m room pos small point bytes =
    let fit = max_bytes-Fitting nbits size mss header room pos small in
    let q = after (suc fit.room) p.rest in
    let selected = select_header stream (is_terminated q.status) out.service_header in
    (
      record (holding out (take (suc fit.room) p.rest)) { service_header = selected },
      q,
      next_segment-holding stream fit.room out p point bytes (m ∙ fit.is) fit.narrow,
      holding-Bounded nbits size mss (suc fit.room) prop h out (take (suc fit.room) p.rest) selected
          (take-length (suc fit.room) p.rest) fit.in_buffer
          (omega (
            arith,
            fit.in_segment,
            select_header-size stream (is_terminated q.status) header out.service_header has,
          )),
    )

max_bytes-wraps :
    (nbits size mss : ℕ) (header : ServiceHeader)
    → max_out_size nbits mss < service_headers_size header
    → service_headers_size header < 2 ^ 8
    → 65280 ≤ max_bytes nbits size mss header × (max_bytes nbits size mss header < 2 ^ 16)
unfolding max_bytes
max_bytes-wraps nbits size mss header less byte =
    rw (lt→ltb (max_out_size nbits mss) (service_headers_size header) less) (omega arith)

service_headers_size-byte : (header : ServiceHeader) → service_headers_size header < 2 ^ 8
unfolding service_headers_size
service_headers_size-byte header_none = omega arith
service_headers_size-byte header_standard = omega arith
service_headers_size-byte header_chunks = omega arith

take-short : (n : ℕ) (cs : List ℕ) → length cs ≤ n → take n cs ≡ cs
take-short zero [] l = refl
take-short (suc n) [] l = refl
take-short zero (c ∷ cs) l = absurd (omega arith)
take-short (suc n) (c ∷ cs) l = ap (λ ds. c ∷ ds) (take-short n cs (omega arith))

-- When the maximum segment size of the client has no room for the header that is counted on, the
-- number of bytes left for the contents wraps: up to 65280 characters all go to the buffer, however small it is.
pub next_segment-overrun :
    (nbits size mss : ℕ) (stream : Bool) (header : ServiceHeader) (out : CurrOutput) (p : Point)
    → out.max_bytes ≡ max_bytes nbits size mss header
    → max_out_size nbits mss < service_headers_size header
    → IsPoint p
    → IsBytes p.rest
    → length p.rest ≤ 65280
    → (sent : CurrOutput) × (q : Point) × (next_segment stream out p ≡ some (sent, q))
      × (sent.buffer ≡ p.rest)
next_segment-overrun nbits size mss stream header out p m less point bytes short =
    let bounds = max_bytes-wraps nbits size mss header less (service_headers_size-byte header) in
    let n = max_bytes nbits size mss header - 1 in
    (
      record (holding out (take (suc n) p.rest)) {
        service_header =
            select_header stream (is_terminated (after (suc n) p.rest).status) out.service_header;
      },
      after (suc n) p.rest,
      next_segment-holding stream n out p point bytes (m ∙ omega arith) (omega arith),
      take-short (suc n) p.rest (omega arith),
    )
