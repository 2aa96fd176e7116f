-- ===== src/Send/Segment/Update.antt =====
-- The length of a segment, and the window of bytes in flight behind it.
use smews.Base.{
  ℕ, ◌+◌, ◌^◌, ◌≡◌, ◌≤◌, ◌<◌, refl, arith, List, ltb, sub32, Bool-cases, inl, inr, ltb→lt,
  not_ltb→le,
}
use smews.Handlers.{file}
use smews.Connections.{HttpConnection}
use smews.Send.Packet.{CurrOutput, segment_length, max_out_size, file_remaining_bytes}
use smews.Send.Segment.{update, advance}

update-file_advance :
    (len n : ℕ) (chk bytes : List ℕ) (out : CurrOutput) (h : HttpConnection)
    → update out (file len chk bytes) n h ≡ advance n h
unfolding update
update-file_advance len n chk bytes out h = refl

-- A packet that carries `n` bytes of a file, no more than are left
pub record Carried (n : ℕ) (h h' : HttpConnection) : Type 0 where
  pub some_bytes : 0 < n
  pub in_mss : n ≤ h.tcp_mss
  pub left : file_remaining_bytes h' + n ≡ file_remaining_bytes h
  pub in_flight : h'.inflight ≡ h.inflight + n
  pub window : sub32 h'.next_outseqno h'.inflight ≡ sub32 h.next_outseqno h.inflight

advance-Carried :
    (n : ℕ) (h : HttpConnection)
    → 0 < n
    → n ≤ h.tcp_mss
    → n ≤ file_remaining_bytes h
    → h.next_outseqno < 2 ^ 32
    → h.final_outseqno < 2 ^ 32
    → h.inflight + h.tcp_mss < 2 ^ 16
    → Carried n h (advance n h)
unfolding advance file_remaining_bytes
advance-Carried n h pos mss rest wn wf fit = record {
  some_bytes = pos;
  in_mss = mss;
  left = omega arith;
  in_flight = omega arith;
  window = omega arith;
}

max_out_size-le : (nbits mss : ℕ) → max_out_size nbits mss ≤ mss
unfolding max_out_size
max_out_size-le nbits mss = omega arith

file_remaining_bytes-lt : (h : HttpConnection) → file_remaining_bytes h < 2 ^ 32
unfolding file_remaining_bytes
file_remaining_bytes-lt h = omega arith

-- A segment of a file is within the maximum segment size and within what is left of the file; it is
-- not empty while something is left and a block of the file fits in a segment; and the
-- packet leaves as many bytes fewer, with all bytes of the window in flight and none skipped.
pub update-file :
    (nbits len : ℕ) (chk bytes : List ℕ) (out : CurrOutput) (h : HttpConnection)
    → h.next_outseqno < 2 ^ 32
    → h.final_outseqno < 2 ^ 32
    → h.tcp_mss < 2 ^ 12
    → 0 < file_remaining_bytes h
    → 0 < max_out_size nbits h.tcp_mss
    → h.inflight + h.tcp_mss < 2 ^ 16
    → (n : ℕ) × (segment_length nbits out (file len chk bytes) h ≡ n)
      × Carried n h (update out (file len chk bytes) n h)
unfolding segment_length
update-file nbits len chk bytes out h wn wf wm left room fit =
    elim (Bool-cases (ltb (max_out_size nbits h.tcp_mss) (file_remaining_bytes h))) [
      | inl e ↦ (
        max_out_size nbits h.tcp_mss,
        rw e (omega (arith, max_out_size-le nbits h.tcp_mss)),
        carried (max_out_size nbits h.tcp_mss) room (max_out_size-le nbits h.tcp_mss)
            (omega (arith, ltb→lt (max_out_size nbits h.tcp_mss) (file_remaining_bytes h) e)),
      )
      | inr e ↦ (
        file_remaining_bytes h,
        rw e (
            omega (
              arith,
              max_out_size-le nbits h.tcp_mss,
              not_ltb→le (max_out_size nbits h.tcp_mss) (file_remaining_bytes h) e,
            )),
        carried (file_remaining_bytes h) left
            (omega (
              arith,
              max_out_size-le nbits h.tcp_mss,
              not_ltb→le (max_out_size nbits h.tcp_mss) (file_remaining_bytes h) e,
            ))
            (omega arith),
      )
    ]
  where
    carried :
        (n : ℕ)
        → 0 < n
        → n ≤ h.tcp_mss
        → n ≤ file_remaining_bytes h
        → Carried n h (update out (file len chk bytes) n h)
    carried n pos mss rest =
        rw (update-file_advance len n chk bytes out h) (advance-Carried n h pos mss rest wn wf fit)
