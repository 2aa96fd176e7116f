-- ===== src/Send/Generate/Response/Whole.antt =====
-- A whole response: with a length when its first segment is its last, and in chunks when it is not.
use mathlib.Core.List.{append-nil}
use smews.Base.{
  ℕ, zero, suc, ◌^◌, ◌≡◌, ◌<◌, refl, ap, ap₂, ◌∙◌, inl, inr, arith, Bool, true, false, some, List,
  [], ◌∷◌, ◌++◌, if◌then◌else◌, length, take, drop, ==_refl, Bool-cases, ne-==,
}
use smews.Checksum.{Sum}
use smews.Service.{header_none, header_standard, header_chunks}
use smews.Coroutines.{cr_ready}
use smews.Connections.{HttpConnection}
use smews.Send.Packet.{
  CurrOutput, service_http_header, service_http_header_part2, service_http_header_chunked,
  service_headers_size, max_out_size,
}
use smews.Send.Segment.{length_digits, contents}
use smews.Send.Generate.{Point, next_segment, is_terminated, select_header, max_bytes}
use smews.Send.Generate.Written.{
  after, holding, IsBytes, IsBytes-after, after-IsPoint, take-length, next_segment-holding,
}
use smews.Send.Generate.Response.{
  payload, payloads, segments, append_to, strip, read_chunks, read_counted, read_response,
}
use smews.Send.Generate.Fitting.{max_bytes-Fitting}
use smews.Send.Generate.Response.Sizes.{read_size-standard, read_size-chunks}
use smews.Send.Generate.Response.Chunks.{
  Reads, segments-last, segments-more, read_chunks-segments, take-after, after-length, take-all,
  read_chunks-chunk, chunk, chunk-append,
}

-- The whole of it is in the segment when the handler has returned.
after-ended : (n : ℕ) (cs : List ℕ) → is_terminated (after n cs).status ≡ true → take n cs ≡ cs
after-ended zero [] e = refl
after-ended (suc n) [] e = refl
after-ended zero (c ∷ cs) e = cc
after-ended (suc n) (c ∷ cs) e = ap (λ ds. c ∷ ds) (after-ended n cs e)

abbrev standard_digits : Sum → List ℕ → List ℕ
standard_digits s cs = (length_digits header_standard (length cs) s).0

abbrev chunks_digits : Sum → List ℕ → List ℕ
chunks_digits s cs = (length_digits header_chunks (length cs) s).0

module _ (h : HttpConnection) (s : Sum) (out : CurrOutput) where
  payload-standard :
      (cs : List ℕ)
      → payload h s (record (holding out cs) { service_header = header_standard })
        ≡ service_http_header ++ (standard_digits s cs ++ (service_http_header_part2 ++ cs))
  unfolding contents
  payload-standard cs =
      ap (λ ds. service_http_header ++ (standard_digits s cs ++ (service_http_header_part2 ++ ds)))
        (take-all cs)

  payload-chunks :
      (cs rest : List ℕ)
      → payload h s (record (holding out cs) { service_header = header_chunks }) ++ rest
        ≡ service_http_header_chunked ++ chunk (chunks_digits s cs) cs rest
  unfolding contents
  payload-chunks cs rest =
      ap (λ ds. service_http_header_chunked ++ ds) (chunk-append (chunks_digits s cs) cs rest)

read_counted-standard :
    (s : Sum) (cs : List ℕ)
    → length cs < 2 ^ 16
    → read_counted (standard_digits s cs ++ (service_http_header_part2 ++ cs)) ≡ some cs
unfolding read_counted strip
read_counted-standard s cs l =
    rw
      (
        read_counted,
        read_size-standard (length cs) s (drop 1 service_http_header_part2 ++ cs) l,
        ==_refl (length cs),
      )
      refl

read_response-chunks :
    (fuel : ℕ) (ds : List ℕ)
    → read_response fuel (service_http_header_chunked ++ ds) ≡ read_chunks fuel ds
unfolding read_response strip
read_response-chunks fuel ds = refl

read_response-standard :
    (fuel : ℕ) (ds : List ℕ) → read_response fuel (service_http_header ++ ds) ≡ read_counted ds
unfolding read_response strip
read_response-standard fuel ds = refl

-- The segments of a response, and what a client reads in them
pub record Answered (fuel later : ℕ) (h : HttpConnection) (s : Sum) (out : CurrOutput) (cs : List ℕ)
    : Type 0 where
  pub made : List CurrOutput
  pub makes : segments fuel later out (record { status = cr_ready; rest = cs }) ≡ some made
  pub reads : read_response fuel (payloads h s made) ≡ some cs

module _ (h : HttpConnection) (s : Sum) (first room : ℕ) (out : CurrOutput) where
  abbrev start : List ℕ → Point
  start cs = record { status = cr_ready; rest = cs }

  next_segment-first :
      (cs : List ℕ) (b : Bool)
      → IsBytes cs
      → out.service_header ≡ header_standard
      → out.max_bytes ≡ suc first
      → suc first < 2 ^ 16
      → is_terminated (after (suc first) cs).status ≡ b
      → next_segment false out (start cs)
        ≡ some (
          record (holding out (take (suc first) cs)) {
            service_header = if b then header_standard else header_chunks;
          },
          after (suc first) cs,
        )
  unfolding select_header
  next_segment-first cs b bytes standard m fits e =
      next_segment-holding false first out (start cs) (inr refl) bytes m fits
      ∙ ap
          (λ header. some (
            record (holding out (take (suc first) cs)) { service_header = header },
            after (suc first) cs,
          ))
          (ap₂ (λ c header. select_header false c header) e standard ∙ chosen b)
    where
      chosen :
          (c : Bool)
          → select_header false c header_standard ≡ (if c then header_standard else header_chunks)
      chosen true = refl
      chosen false = refl

  Answered-standard :
      (fuel : ℕ) (cs : List ℕ)
      → take (suc first) cs ≡ cs
      → next_segment false out (start cs)
        ≡ some (
          record (holding out (take (suc first) cs)) { service_header = header_standard },
          after (suc first) cs,
        )
      → length cs < 2 ^ 16
      → Answered (suc fuel) (suc room) h s out cs
  unfolding read_response
  Answered-standard fuel cs whole e l = record {
    made = record (holding out cs) { service_header = header_standard } ∷ [];
    makes =
        segments-last h s room fuel out
          (record (holding out cs) { service_header = header_standard }) (start cs)
          (after (suc first) cs)
          (e
            ∙ ap
                (λ ds. some (
                  record (holding out ds) { service_header = header_standard },
                  after (suc first) cs,
                ))
                whole)
          refl;
    reads =
        ap (read_response (suc fuel)) (
          append-nil (payload h s (record (holding out cs) { service_header = header_standard }))
          ∙ payload-standard h s out cs)
        ∙ read_response-standard (suc fuel)
            (standard_digits s cs ++ (service_http_header_part2 ++ cs))
        ∙ read_counted-standard s cs l;
  }

  Answered-chunks :
      (fuel c : ℕ) (cs : List ℕ)
      → suc first < 2 ^ 16
      → next_segment false out (start (c ∷ cs))
        ≡ some (
          record (holding out (c ∷ take first cs)) { service_header = header_chunks },
          after first cs,
        )
      → Reads fuel
          (suc room)
          h
          s
          (record (holding out (c ∷ take first cs)) {
            service_header = header_chunks;
            max_bytes = suc room;
          })
          (after first cs)
      → Answered (suc fuel) (suc room) h s out (c ∷ cs)
  unfolding read_response
  Answered-chunks fuel c cs fits e next =
      let sent = record (holding out (c ∷ take first cs)) { service_header = header_chunks } in
      record {
        made = sent ∷ next.made;
        makes =
            segments-more h s room fuel out sent (start (c ∷ cs)) (after first cs) next.made e
              (ne-== (suc (length (take first cs))) 0 (omega arith)) next.makes;
        reads =
            ap (read_response (suc fuel))
              (payload-chunks h s out (c ∷ take first cs) (payloads h s next.made))
            ∙ read_response-chunks (suc fuel) (
                chunk (chunks_digits s (c ∷ take first cs)) (c ∷ take first cs)
                  (payloads h s next.made))
            ∙ read_chunks-chunk fuel (chunks_digits s (c ∷ take first cs)) c (take first cs)
                (payloads h s next.made)
                (λ ds.
                  read_size-chunks (length (c ∷ take first cs)) s ds
                    (omega (arith, take-length first cs)))
            ∙ ap (append_to (c ∷ take first cs)) next.reads
            ∙ ap (λ ds. some (c ∷ ds)) (take-after first cs);
      }

  -- What a client reads in the response is what the handler gives, with a byte or more in each segment.
  answered :
      (fuel : ℕ) (cs : List ℕ)
      → length cs < fuel
      → IsBytes cs
      → out.service_header ≡ header_standard
      → out.max_bytes ≡ suc first
      → suc first < 2 ^ 16
      → suc room < 2 ^ 16
      → Answered (suc fuel) (suc room) h s out cs
  unfolding select_header
  answered fuel [] l bytes standard m fits fits' =
      Answered-standard fuel [] refl (next_segment-first [] true bytes standard m fits refl)
        (omega arith)
  answered fuel (c ∷ cs) l bytes standard m fits fits' =
      elim (Bool-cases (is_terminated (after first cs).status)) [
        | inl e ↦
            let whole = after-ended (suc first) (c ∷ cs) e in
            Answered-standard fuel (c ∷ cs) whole
              (next_segment-first (c ∷ cs) true bytes standard m fits e)
              (omega (arith, ap length whole, take-length (suc first) (c ∷ cs)))
        | inr e ↦
            Answered-chunks fuel c cs fits
              (next_segment-first (c ∷ cs) false bytes standard m fits e)
              (read_chunks-segments h s room fuel
                (record (holding out (c ∷ take first cs)) {
                  service_header = header_chunks;
                  max_bytes = suc room;
                })
                (after first cs).status (after first cs).rest (omega (arith, after-length first cs))
                (after-IsPoint first cs) (IsBytes-after first cs bytes.1) refl fits' λ b. refl)
      ]

-- The response of a handler that is not comet, in segments of up to `mss` bytes with room for the
-- header of a first chunk and a byte, on a connection that loses none of them: with fuel for each
-- character and two more segments, a last segment is sent, and a client that reads the contents of
-- the segments, in one with a length or in chunks, gets the characters that the handler gave.
pub segments-read_response :
    (nbits size mss fuel : ℕ) (h : HttpConnection) (s : Sum) (out : CurrOutput) (cs : List ℕ)
    → service_headers_size header_chunks < max_out_size nbits mss
    → 0 < size
    → size < 2 ^ 16
    → length cs < fuel
    → IsBytes cs
    → Answered
        (suc fuel)
        (max_bytes nbits size mss header_none)
        h
        s
        (record out {
          service_header = header_standard;
          max_bytes = max_bytes nbits size mss header_chunks;
        })
        cs
unfolding service_headers_size
segments-read_response nbits size mss fuel h s out cs room pos small l bytes =
    let one = max_bytes-Fitting nbits size mss header_chunks room pos small in
    let more = max_bytes-Fitting nbits size mss header_none (omega arith) pos small in
    let begin = record out {
      service_header = header_standard;
      max_bytes = max_bytes nbits size mss header_chunks;
    } in
    rw more.is
      (answered h s one.room more.room begin fuel cs l bytes refl one.is one.narrow more.narrow)
