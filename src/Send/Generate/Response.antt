-- ===== src/Send/Generate/Response.antt =====
-- A whole response of a generator, from the segments that `smews_send` of core/output.c makes on a
-- connection that loses none of them, and a client that reads it.
pub mod Sizes
pub mod Chunks
pub mod Whole
use smews.Base.{
  ℕ, zero, suc, ◌+◌, ◌-◌, ◌*◌, Bool, true, false, Option, none, some, List, [], ◌∷◌, ◌++◌, ltb,
  ◌==◌, if◌then◌else◌, length, take, drop,
}
use smews.Checksum.{Sum}
use smews.Handlers.{Persistence, prop_volatile, generator}
use smews.Service.{ServiceHeader}
use smews.Connections.{HttpConnection}
use smews.Send.Packet.{
  CurrOutput, service_http_header, service_http_header_part2, service_http_header_chunked,
}
use smews.Send.Segment.{length_digits, contents, sets_final}
use smews.Send.Generate.{Point, next_segment}

-- The bytes behind the header of TCP; the sum before them does not change them.
abbrev pub payload : HttpConnection → Sum → CurrOutput → List ℕ
payload h s out =
    contents out (generator prop_volatile) h 0
      (length_digits out.service_header out.content_length s).0

abbrev pub prepend {ℓ} : {A : Type ℓ} → A → Option (List A) → Option (List A)
prepend x none = none
prepend x (some xs) = some (x ∷ xs)

-- The segments from where the handler stands, until one sets the final sequence number. The first has the
-- length and header of `out`, the others have `later` bytes. `none` is too little fuel.
unfoldable pub segments : ℕ → ℕ → CurrOutput → Point → Option (List CurrOutput)
unfolding next_segment
segments zero later out p = none
segments (suc fuel) later out p = elim (next_segment false out p) [
  | none ↦ none
  | some (sent, q) ↦
      (let rest = segments fuel later (record sent { max_bytes = later }) q in
        if sets_final sent (generator prop_volatile) then some (sent ∷ []) else prepend sent rest)
]

abbrev pub payloads : HttpConnection → Sum → List CurrOutput → List ℕ
payloads h s [] = []
payloads h s (out ∷ outs) = payload h s out ++ payloads h s outs

-- a digit, which may be one of the letters from a to f
unfoldable pub digit : ℕ → ℕ
digit c = if ltb c 58 then c - 48 else c - 87

-- a number up to the end of its line, of which the first of two characters is taken
unfoldable pub read_size : ℕ → ℕ → List ℕ → Option (ℕ × List ℕ)
unfolding digit
read_size base n [] = none
read_size base n (c ∷ cs) =
    let rest = read_size base (n * base + digit c) cs in if c == 13 then some (n, cs) else rest

unfoldable pub strip : List ℕ → List ℕ → Option (List ℕ)
strip [] ys = some ys
strip (x ∷ xs) [] = none
strip (x ∷ xs) (y ∷ ys) = let rest = strip xs ys in if x == y then rest else none

-- what is left behind the characters of one chunk
abbrev pub chunk_end : ℕ → List ℕ → Option (List ℕ)
chunk_end n cs = strip (13 ∷ 10 ∷ []) (drop n cs)

-- One chunk, and the rest: the size, the end of its line, the characters and an end of line.
unfoldable pub read_chunk : List ℕ → Option (List ℕ × List ℕ)
unfolding read_size strip
read_chunk cs = elim (read_size 16 0 cs) [
  | none ↦ none
  | some (n, line) ↦ elim (strip (10 ∷ []) line) [
    | none ↦ none
    | some body ↦ elim (chunk_end n body) [ none ↦ none | some rest ↦ some (take n body, rest) ]
  ]
]

abbrev pub append_to : List ℕ → Option (List ℕ) → Option (List ℕ)
append_to xs none = none
append_to xs (some ys) = some (xs ++ ys)

abbrev pub only_end : List ℕ → Option (List ℕ)
only_end [] = some []
only_end (c ∷ cs) = none

-- the chunks up to the void one, which is the end
unfoldable pub read_chunks : ℕ → List ℕ → Option (List ℕ)
unfolding read_chunk
read_chunks zero cs = none
read_chunks (suc fuel) cs = elim (read_chunk cs) [
  | none ↦ none
  | some ([], rest) ↦ only_end rest
  | some (c ∷ body, rest) ↦ append_to (c ∷ body) (read_chunks fuel rest)
]

-- a body of the length that the header says
unfoldable pub read_counted : List ℕ → Option (List ℕ)
unfolding read_size strip
read_counted cs = elim (read_size 10 0 cs) [
  | none ↦ none
  | some (n, line) ↦ elim (strip (drop 1 service_http_header_part2) line) [
    | none ↦ none
    | some body ↦ if length body == n then some body else none
  ]
]

-- A client that knows the two headers.
unfoldable pub read_response : ℕ → List ℕ → Option (List ℕ)
unfolding read_counted read_chunks strip
read_response fuel cs = elim (strip service_http_header cs) [
  | some line ↦ read_counted line
  | none ↦ elim (strip service_http_header_chunked cs) [
    | none ↦ none
    | some chunks ↦ read_chunks fuel chunks
  ]
]
