-- ===== src/Send/Generate.antt =====
-- One segment of a generator in `smews_send` of core/output.c, for IPv4 and without POST: `out_c` in a
-- coroutine, `cr_run` around it, and the header of HTTP that is selected. A handler is the list of the
-- characters that it gives to `out_c`, which always answers 1 in a coroutine.
pub mod Written
pub mod Fitting
pub mod Response
mod Tests
use smews.Base.{
  ℕ, ◌+◌, ◌-◌, ◌^◌, min, Bool, true, false, Option, none, some, List, [], ◌∷◌, ◌++◌, ltb, ◌==◌,
  if◌then◌else◌, u16,
}
use smews.Checksum.{Sum, checksum_init, checksum_add, checksum_end, word}
use smews.Service.{ServiceHeader, header_none, header_standard, header_chunks}
use smews.Coroutines.{Status, cr_ready, cr_active, cr_terminated}
use smews.Send.Packet.{CurrOutput, service_headers_size, max_out_size}

-- Where a handler stands: the status of its coroutine, and what it has still to give to `out_c`.
-- When it is active, the first of these characters is that of the call of `out_c` which is suspended.
pub record Point : Type 0 where
  pub status : Status
  pub rest : List ℕ

-- `curr_output` and `current_checksum` while a segment is written
pub record Writing : Type 0 where
  pub out : CurrOutput
  pub sum : Sum

-- `curr_output.max_bytes` with a header: a negative number wraps to 16 bits
unfoldable pub max_bytes : ℕ → ℕ → ℕ → ServiceHeader → ℕ
unfolding max_out_size service_headers_size
max_bytes nbits size mss header =
    let room = max_out_size nbits mss in
    if ltb room (service_headers_size header)
    then u16 (room + 2 ^ 16 - service_headers_size header)
    else u16 (min size (room - service_headers_size header))

-- the end of `out_c`
unfoldable pub put_char : ℕ → Writing → Writing
unfolding checksum_add
put_char c w = record w {
  out = record w.out {
    buffer = w.out.buffer ++ (c ∷ []);
    content_length = u16 (w.out.content_length + 1);
  };
  sum = checksum_add w.sum c;
}

-- The handler runs until it returns, or until `out_c` goes back to the main program.
unfoldable pub generate : List ℕ → Writing → Point × Writing
unfolding put_char
generate [] w = (record { status = cr_terminated; rest = [] }, w)
generate (c ∷ cs) w =
    let rest = generate cs (put_char c w) in
    if w.out.content_length == w.out.max_bytes
    then (record { status = cr_active; rest = c ∷ cs }, w)
    else rest

-- The suspended call of `out_c` does not test the length again.
unfoldable pub resume : List ℕ → Writing → Point × Writing
unfolding generate put_char
resume [] w = (record { status = cr_terminated; rest = [] }, w)
resume (c ∷ cs) w = generate cs (put_char c w)

-- `cr_run`, which is not called at a coroutine that is terminated
unfoldable pub cr_run : Point → Writing → Point × Writing
unfolding generate resume
cr_run p w = elim p.status [
  | cr_ready ↦ generate p.rest w
  | cr_active ↦ resume p.rest w
  | cr_terminated ↦ (p, w)
]

-- `initializations before generating the segment`
abbrev pub blank_output : CurrOutput → CurrOutput
blank_output out = record out { buffer = []; content_length = 0 }

abbrev pub is_terminated : Status → Bool
is_terminated cr_terminated = true
is_terminated _ = false

-- `finalizations after the segment generation`
unfoldable pub finalize : Point × Writing → Option (CurrOutput × Point)
unfolding checksum_end
finalize (p, w) = elim (checksum_end 4 w.sum) [
  | none ↦ none
  | some s ↦ some (record w.out { checksum = word s }, p)
]

-- A segment is generated: a coroutine that is terminated gives a void one.
unfoldable pub generate_segment : CurrOutput → Point → Option (CurrOutput × Point)
unfolding cr_run finalize checksum_init
generate_segment out p =
    let w : Writing = record { out = blank_output out; sum = checksum_init } in
    finalize (if is_terminated p.status then (p, w) else cr_run p w)

-- `select the right HTTP header`
unfoldable pub select_header : Bool → Bool → ServiceHeader → ServiceHeader
select_header stream has_ended header_standard =
    if has_ended then (if stream then header_chunks else header_standard) else header_chunks
select_header stream has_ended header_chunks = header_none
select_header stream has_ended header_none = header_none

-- The segment with its header, which is that of the service before it.
unfoldable pub next_segment : Bool → CurrOutput → Point → Option (CurrOutput × Point)
unfolding generate_segment select_header
next_segment stream out p = elim (generate_segment out p) [
  | none ↦ none
  | some (out', q) ↦ some (
    record out' {
      service_header = select_header stream (is_terminated q.status) out.service_header;
    },
    q,
  )
]
