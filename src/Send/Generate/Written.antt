-- ===== src/Send/Generate/Written.antt =====
-- What one run of a handler writes: the first characters that fit.
use mathlib.Core.List.{append_assoc, append-nil}
use smews.Base.{
  ℕ, zero, suc, ◌+◌, ◌^◌, ◌≡◌, ◌≤◌, ◌<◌, refl, sym, ap, ap₂, ◌∙◌, ◌⊎◌, inl, inr, arith, Bool, true,
  false, not, some, List, [], ◌∷◌, ◌++◌, map, length, take, u16, ==_iff, ne-==,
}
use smews.Checksum.{Sum, checksum_init, checksum_add, checksum_end, word}
use smews.Checksum.Ones.{
  byte, feed_all, FitsAll, amount_all, ones_sum, preset, checksum_end-ones_sum,
}
use smews.Coroutines.{Status, cr_ready, cr_active, cr_terminated}
use smews.Send.Packet.{CurrOutput}
use smews.Send.Generate.{
  Point, Writing, put_char, generate, resume, cr_run, blank_output, finalize, generate_segment,
  select_header, next_segment, is_terminated,
}

abbrev pub ended : Point
ended = record { status = cr_terminated; rest = [] }

-- where the handler stands once it has given `room` characters
abbrev pub after : ℕ → List ℕ → Point
after room [] = ended
after zero (c ∷ cs) = record { status = cr_active; rest = c ∷ cs }
after (suc room) (c ∷ cs) = after room cs

abbrev pub written : List ℕ → Writing → Writing
written [] w = w
written (c ∷ cs) w = written cs (put_char c w)

put_char-max : (c : ℕ) (w : Writing) → (put_char c w).out.max_bytes ≡ w.out.max_bytes
unfolding put_char
put_char-max c w = refl

put_char-length :
    (c : ℕ) (w : Writing) → (put_char c w).out.content_length ≡ u16 (w.out.content_length + 1)
unfolding put_char
put_char-length c w = refl

pub generate-after :
    (room : ℕ) (cs : List ℕ) (w : Writing)
    → w.out.content_length + room ≡ w.out.max_bytes
    → w.out.max_bytes < 2 ^ 16
    → generate cs w ≡ (after room cs, written (take room cs) w)
unfolding generate
generate-after zero [] w e fits = refl
generate-after (suc room) [] w e fits = refl
generate-after zero (c ∷ cs) w e fits =
    rw ((==_iff w.out.content_length w.out.max_bytes).1 (omega arith)) refl
generate-after (suc room) (c ∷ cs) w e fits =
    rw (ne-== w.out.content_length w.out.max_bytes (omega arith)) (
      generate-after room cs (put_char c w) (omega (arith, put_char-length c w, put_char-max c w))
        (omega (arith, put_char-max c w)))

resume-after :
    (room : ℕ) (cs : List ℕ) (w : Writing)
    → w.out.content_length ≡ 0
    → w.out.max_bytes ≡ suc room
    → w.out.max_bytes < 2 ^ 16
    → resume cs w ≡ (after (suc room) cs, written (take (suc room) cs) w)
unfolding resume
resume-after room [] w z e fits = refl
resume-after room (c ∷ cs) w z e fits =
    generate-after room cs (put_char c w) (omega (arith, put_char-length c w, put_char-max c w))
      (omega (arith, put_char-max c w))

-- A coroutine that is not terminated starts or goes on, and writes what fits.
cr_run-after :
    (room : ℕ) (p : Point) (w : Writing)
    → is_terminated p.status ≡ false
    → w.out.content_length ≡ 0
    → w.out.max_bytes ≡ suc room
    → w.out.max_bytes < 2 ^ 16
    → cr_run p w ≡ (after (suc room) p.rest, written (take (suc room) p.rest) w)
unfolding cr_run
cr_run-after room p w runs z e fits = go p.status refl
  where
    go :
        (s : Status)
        → p.status ≡ s
        → elim s [
          | cr_ready ↦ generate p.rest w
          | cr_active ↦ resume p.rest w
          | cr_terminated ↦ (p, w)
        ]
          ≡ (after (suc room) p.rest, written (take (suc room) p.rest) w)
    go cr_ready i = generate-after (suc room) p.rest w (omega arith) fits
    go cr_active i = resume-after room p.rest w z e fits
    go cr_terminated i = cc (runs, ap is_terminated i)

-- a segment with the characters `cs`, and their checksum
abbrev pub holding : CurrOutput → List ℕ → CurrOutput
holding out cs = record out {
  buffer = cs;
  content_length = length cs;
  checksum = ones_sum (amount_all true (map byte cs));
}

abbrev with_contents : Writing → List ℕ → ℕ → Sum → Writing
with_contents w cs n s = record w {
  out = record w.out { buffer = cs; content_length = n };
  sum = s;
}

written-feed :
    (cs : List ℕ) (w : Writing)
    → w.out.content_length + length cs < 2 ^ 16
    → written cs w
      ≡ with_contents w
          (w.out.buffer ++ cs)
          (w.out.content_length + length cs)
          (feed_all w.sum (map byte cs))
unfolding put_char
written-feed [] w fits =
    ap₂ (λ b n. with_contents w b n w.sum) (sym (append-nil w.out.buffer)) (omega arith)
written-feed (c ∷ cs) w fits =
    written-feed cs (put_char c w) (omega (arith, put_char-length c w))
    ∙ ap₂ (λ b n. with_contents w b n (feed_all (checksum_add w.sum c) (map byte cs)))
        (append_assoc w.out.buffer (c ∷ []) cs) (omega (arith, put_char-length c w))

abbrev pub IsBytes : List ℕ → Type 0
IsBytes [] = Unit {0}
IsBytes (c ∷ cs) = (c < 2 ^ 8) × IsBytes cs

pub FitsAll-bytes : (f : Bool) (cs : List ℕ) → IsBytes cs → FitsAll f (map byte cs)
FitsAll-bytes f [] h = tt
FitsAll-bytes f (c ∷ cs) h = (h.0, FitsAll-bytes (not f) cs h.1)

pub IsBytes-take : (n : ℕ) (cs : List ℕ) → IsBytes cs → IsBytes (take n cs)
IsBytes-take zero cs h = tt
IsBytes-take (suc n) [] h = tt
IsBytes-take (suc n) (c ∷ cs) h = (h.0, IsBytes-take n cs h.1)

pub IsBytes-after : (n : ℕ) (cs : List ℕ) → IsBytes cs → IsBytes (after n cs).rest
IsBytes-after n [] h = tt
IsBytes-after zero (c ∷ cs) h = h
IsBytes-after (suc n) (c ∷ cs) h = IsBytes-after n cs h.1

pub take-length : (n : ℕ) (cs : List ℕ) → length (take n cs) ≤ n
take-length zero cs = omega arith
take-length (suc n) [] = omega arith
take-length (suc n) (c ∷ cs) = omega (arith, take-length n cs)

-- a coroutine that is terminated has nothing left
abbrev pub IsPoint : Point → Type 0
IsPoint p = (p ≡ ended) ⊎ (is_terminated p.status ≡ false)

pub after-IsPoint : (n : ℕ) (cs : List ℕ) → IsPoint (after n cs)
after-IsPoint n [] = inl refl
after-IsPoint zero (c ∷ cs) = inr refl
after-IsPoint (suc n) (c ∷ cs) = after-IsPoint n cs

abbrev begun : CurrOutput → Writing
begun out = record { out = blank_output out; sum = checksum_init }

finalize-some :
    (w : Writing) (q : Point) (s : Sum)
    → checksum_end 4 w.sum ≡ some s
    → finalize (q, w) ≡ some (record w.out { checksum = word s }, q)
unfolding finalize
finalize-some w q s e = rw (finalize, e) refl

finalize-holding :
    (out : CurrOutput) (cs : List ℕ) (q : Point)
    → IsBytes cs
    → length cs < 2 ^ 16
    → finalize (q, written cs (begun out)) ≡ some (holding out cs, q)
unfolding checksum_init
finalize-holding out cs q bytes fits =
    let (r, returns, _, _, is) =
      checksum_end-ones_sum 4 0 (map byte cs) (omega arith) (omega arith)
        (FitsAll-bytes true cs bytes) in
    ap (λ w. finalize (q, w)) (written-feed cs (begun out) (omega arith))
    ∙ finalize-some
        (with_contents (begun out) cs (0 + length cs) (feed_all (preset 0) (map byte cs))) q r
        returns
    ∙ ap₂ (λ n k. some (record out { buffer = cs; content_length = n; checksum = k }, q))
        (omega arith) (is ∙ ap ones_sum (omega arith))

-- A segment holds the first characters that fit, with their checksum.
pub generate_segment-holding :
    (room : ℕ) (out : CurrOutput) (p : Point)
    → IsPoint p
    → IsBytes p.rest
    → out.max_bytes ≡ suc room
    → suc room < 2 ^ 16
    → generate_segment out p ≡ some (holding out (take (suc room) p.rest), after (suc room) p.rest)
unfolding generate_segment
generate_segment-holding room out p (inl e) bytes m fits =
    ap (generate_segment out) e
    ∙ finalize-holding out [] ended tt (omega arith)
    ∙ ap (λ cs. some (holding out (take (suc room) cs), after (suc room) cs))
        (ap (λ q. q.rest) (sym e))
generate_segment-holding room out p (inr e) bytes m fits = rw e (
    ap finalize (cr_run-after room p (begun out) e refl m (omega arith))
    ∙ finalize-holding out (take (suc room) p.rest) (after (suc room) p.rest)
        (IsBytes-take (suc room) p.rest bytes) (omega (arith, take-length (suc room) p.rest)))

pub next_segment-holding :
    (stream : Bool) (room : ℕ) (out : CurrOutput) (p : Point)
    → IsPoint p
    → IsBytes p.rest
    → out.max_bytes ≡ suc room
    → suc room < 2 ^ 16
    → next_segment stream out p
      ≡ some (
        record (holding out (take (suc room) p.rest)) {
          service_header =
              select_header stream
                (is_terminated (after (suc room) p.rest).status)
                out.service_header;
        },
        after (suc room) p.rest,
      )
unfolding next_segment
next_segment-holding stream room out p point bytes m fits =
    rw (next_segment, generate_segment-holding room out p point bytes m fits) refl
