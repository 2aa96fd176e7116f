-- ===== src/Send/Generate/Response/Chunks.antt =====
-- The chunks behind the first segment of a response, as a client reads them.
use mathlib.Core.List.{append_assoc}
use smews.Base.{
  ℕ, zero, suc, ◌^◌, ◌≡◌, ◌≤◌, ◌<◌, refl, ap, ◌∙◌, arith, Bool, true, false, some, List, [], ◌∷◌,
  ◌++◌, length, take, take-append, drop-append, ne-==,
}
use smews.Checksum.{Sum}
use smews.Handlers.{prop_volatile, generator}
use smews.Service.{header_none}
use smews.Connections.{HttpConnection}
use smews.Coroutines.{Status}
use smews.Send.Packet.{CurrOutput}
use smews.Send.Segment.{length_digits, contents, sets_final}
use smews.Send.Generate.{Point, next_segment, is_terminated, select_header}
use smews.Send.Generate.Written.{
  ended, after, holding, IsBytes, IsPoint, IsBytes-after, after-IsPoint, take-length,
  next_segment-holding,
}
use smews.Send.Generate.Response.{
  payload, payloads, segments, read_size, strip, read_chunk, read_chunks, append_to,
}
use smews.Send.Generate.Response.Sizes.{read_size-none}

-- the line, the characters and the end of a chunk
abbrev pub chunk : List ℕ → List ℕ → List ℕ → List ℕ
chunk digits body rest = digits ++ (13 ∷ 10 ∷ (body ++ (13 ∷ 10 ∷ rest)))

read_chunk-chunk :
    (n : ℕ) (digits body rest : List ℕ)
    → length body ≡ n
    → ((cs : List ℕ) → read_size 16 0 (digits ++ (13 ∷ cs)) ≡ some (n, cs))
    → read_chunk (chunk digits body rest) ≡ some (body, rest)
unfolding read_chunk strip
read_chunk-chunk n digits body rest e reads =
    let line = 13 ∷ 10 ∷ rest in
    rw
      (
        read_chunk,
        reads (10 ∷ (body ++ line)),
        ← e,
        drop-append body line,
        ← e,
        take-append body line,
      )
      refl

pub take-all : (cs : List ℕ) → take (length cs) cs ≡ cs
take-all [] = refl
take-all (c ∷ cs) = ap (λ ds. c ∷ ds) (take-all cs)

abbrev none_digits : Sum → List ℕ → List ℕ
none_digits s cs = (length_digits header_none (length cs) s).0

pub chunk-append :
    (digits cs rest : List ℕ)
    → (digits ++ (13 ∷ 10 ∷ (take (length cs) cs ++ (13 ∷ 10 ∷ [])))) ++ rest ≡ chunk digits cs rest
chunk-append digits cs rest =
    ap (λ ds. (digits ++ (13 ∷ 10 ∷ (ds ++ (13 ∷ 10 ∷ [])))) ++ rest) (take-all cs)
    ∙ append_assoc digits (13 ∷ 10 ∷ (cs ++ (13 ∷ 10 ∷ []))) rest
    ∙ ap (λ ds. digits ++ (13 ∷ 10 ∷ ds)) (append_assoc cs (13 ∷ 10 ∷ []) rest)

payload-chunk :
    (h : HttpConnection) (s : Sum) (out : CurrOutput) (cs rest : List ℕ)
    → payload h s (record (holding out cs) { service_header = header_none }) ++ rest
      ≡ chunk (none_digits s cs) cs rest
unfolding contents
payload-chunk h s out cs rest = chunk-append (none_digits s cs) cs rest

-- A void chunk is the end; any other goes before the rest.
pub read_chunks-chunk :
    (fuel : ℕ) (digits : List ℕ) (c : ℕ) (cs rest : List ℕ)
    → ((ds : List ℕ) → read_size 16 0 (digits ++ (13 ∷ ds)) ≡ some (length (c ∷ cs), ds))
    → read_chunks (suc fuel) (chunk digits (c ∷ cs) rest)
      ≡ append_to (c ∷ cs) (read_chunks fuel rest)
unfolding read_chunks
read_chunks-chunk fuel digits c cs rest reads =
    rw (read_chunks, read_chunk-chunk (length (c ∷ cs)) digits (c ∷ cs) rest refl reads) refl

read_chunks-payload :
    (fuel : ℕ) (h : HttpConnection) (s : Sum) (out : CurrOutput) (c : ℕ) (cs rest : List ℕ)
    → length (c ∷ cs) < 2 ^ 16
    → read_chunks
        (suc fuel)
        (payload h s (record (holding out (c ∷ cs)) { service_header = header_none }) ++ rest)
      ≡ append_to (c ∷ cs) (read_chunks fuel rest)
read_chunks-payload fuel h s out c cs rest l =
    ap (read_chunks (suc fuel)) (payload-chunk h s out (c ∷ cs) rest)
    ∙ read_chunks-chunk fuel (none_digits s (c ∷ cs)) c cs rest
        λ ds. read_size-none (length (c ∷ cs)) s ds l

read_chunks-void :
    (fuel : ℕ) (h : HttpConnection) (s : Sum) (out : CurrOutput)
    → read_chunks
        (suc fuel)
        (payload h s (record (holding out []) { service_header = header_none }) ++ [])
      ≡ some []
unfolding read_chunks
read_chunks-void fuel h s out =
    ap (read_chunks (suc fuel)) (payload-chunk h s out [] []) ∙ rw (read_chunks, read) refl
  where
    read : read_chunk (chunk (none_digits s []) [] []) ≡ some ([], [])
    read =
        read_chunk-chunk 0 (none_digits s []) [] [] refl λ ds. read_size-none 0 s ds (omega arith)

pub take-after : (n : ℕ) (cs : List ℕ) → take n cs ++ (after n cs).rest ≡ cs
take-after zero [] = refl
take-after (suc n) [] = refl
take-after zero (c ∷ cs) = refl
take-after (suc n) (c ∷ cs) = ap (λ ds. c ∷ ds) (take-after n cs)

pub after-length : (n : ℕ) (cs : List ℕ) → length (after n cs).rest ≤ length cs
after-length n [] = omega arith
after-length zero (c ∷ cs) = omega arith
after-length (suc n) (c ∷ cs) = omega (arith, after-length n cs)

-- The segments are made, and their chunks are what the handler had still to give.
pub record Reads (fuel later : ℕ) (h : HttpConnection) (s : Sum) (out : CurrOutput) (p : Point)
    : Type 0 where
  pub made : List CurrOutput
  pub makes : segments fuel later out p ≡ some made
  pub reads : read_chunks fuel (payloads h s made) ≡ some p.rest

module _ (h : HttpConnection) (s : Sum) (room : ℕ) where
  -- The segment that is sent, and the one that is set up behind it.
  abbrev sending : CurrOutput → Point → CurrOutput
  sending out p = record (holding out (take (suc room) p.rest)) { service_header = header_none }

  abbrev following : CurrOutput → Point → CurrOutput
  following out p = record (sending out p) { max_bytes = suc room }

  next_segment-none :
      (out : CurrOutput) (p : Point)
      → IsPoint p
      → IsBytes p.rest
      → out.max_bytes ≡ suc room
      → suc room < 2 ^ 16
      → ((b : Bool) → select_header false b out.service_header ≡ header_none)
      → next_segment false out p ≡ some (sending out p, after (suc room) p.rest)
  next_segment-none out p point bytes m fits none_next =
      next_segment-holding false room out p point bytes m fits
      ∙ ap
          (λ header. some (
            record (holding out (take (suc room) p.rest)) { service_header = header },
            after (suc room) p.rest,
          ))
          (none_next (is_terminated (after (suc room) p.rest).status))

  pub segments-last :
      (fuel : ℕ) (out sent : CurrOutput) (p q : Point)
      → next_segment false out p ≡ some (sent, q)
      → sets_final sent (generator prop_volatile) ≡ true
      → segments (suc fuel) (suc room) out p ≡ some (sent ∷ [])
  unfolding segments
  segments-last fuel out sent p q e final = rw (segments, e, final) refl

  pub segments-more :
      (fuel : ℕ) (out sent : CurrOutput) (p q : Point) (made : List CurrOutput)
      → next_segment false out p ≡ some (sent, q)
      → sets_final sent (generator prop_volatile) ≡ false
      → segments fuel (suc room) (record sent { max_bytes = suc room }) q ≡ some made
      → segments (suc fuel) (suc room) out p ≡ some (sent ∷ made)
  unfolding segments
  segments-more fuel out sent p q made e more rest = rw (segments, e, more, rest) refl

  Reads-last :
      (fuel : ℕ) (out : CurrOutput) (st : Status)
      → next_segment false out (record { status = st; rest = [] })
        ≡ some (sending out (record { status = st; rest = [] }), ended)
      → Reads (suc fuel) (suc room) h s out (record { status = st; rest = [] })
  Reads-last fuel out st e =
      let p : Point = record { status = st; rest = [] } in
      record {
        made = sending out p ∷ [];
        makes = segments-last fuel out (sending out p) p ended e refl;
        reads = read_chunks-void fuel h s out;
      }

  Reads-more :
      (fuel : ℕ) (out : CurrOutput) (st : Status) (c : ℕ) (cs : List ℕ)
      → suc room < 2 ^ 16
      → next_segment false out (record { status = st; rest = c ∷ cs })
        ≡ some (sending out (record { status = st; rest = c ∷ cs }), after room cs)
      → Reads fuel
          (suc room)
          h
          s
          (following out (record { status = st; rest = c ∷ cs }))
          (after room cs)
      → Reads (suc fuel) (suc room) h s out (record { status = st; rest = c ∷ cs })
  Reads-more fuel out st c cs fits e next =
      let p : Point = record { status = st; rest = c ∷ cs } in
      record {
        made = sending out p ∷ next.made;
        makes =
            segments-more fuel out (sending out p) p (after room cs) next.made e
              (ne-== (suc (length (take room cs))) 0 (omega arith)) next.makes;
        reads =
            read_chunks-payload fuel h s out c (take room cs) (payloads h s next.made)
              (omega (arith, take-length room cs))
            ∙ ap (append_to (c ∷ take room cs)) next.reads
            ∙ ap (λ ds. some (c ∷ ds)) (take-after room cs);
      }

  -- Behind the first segment: with fuel for each character and one more, and a byte or more in
  -- each segment.
  pub read_chunks-segments :
      (fuel : ℕ) (out : CurrOutput) (st : Status) (cs : List ℕ)
      → length cs < fuel
      → IsPoint (record { status = st; rest = cs })
      → IsBytes cs
      → out.max_bytes ≡ suc room
      → suc room < 2 ^ 16
      → ((b : Bool) → select_header false b out.service_header ≡ header_none)
      → Reads fuel (suc room) h s out (record { status = st; rest = cs })
  unfolding select_header
  read_chunks-segments zero out st cs l point bytes m fits none_next = absurd (omega arith)
  read_chunks-segments (suc fuel) out st [] l point bytes m fits none_next =
      Reads-last fuel out st
        (next_segment-none out (record { status = st; rest = [] }) point bytes m fits none_next)
  read_chunks-segments (suc fuel) out st (c ∷ cs) l point bytes m fits none_next =
      let p : Point = record { status = st; rest = c ∷ cs } in
      Reads-more fuel out st c cs fits (next_segment-none out p point bytes m fits none_next) (
        read_chunks-segments fuel (following out p) (after room cs).status (after room cs).rest
          (omega (arith, after-length room cs)) (after-IsPoint room cs)
          (IsBytes-after room cs bytes.1) refl fits λ b. refl)
