-- ===== src/Generators.antt =====
-- core/generators.c: what a generator of contents calls. `out_c` is the caller's, so that the
-- characters of a number are a list here, sent in order. A connection is listed in the order of the ring.
pub mod Digits
pub mod Push
mod Tests
use smews.Base.{
  ℕ, zero, suc, ◌+◌, ◌-◌, ◌*◌, ◌/◌, ◌%◌, ◌^◌, Bool, true, false, not, ◌&&◌, Option, none, some,
  List, [], ◌∷◌, map, ltb, ◌==◌, if◌then◌else◌, u8, u16, sub32,
}
use smews.Handlers.{OutputHandler}
use smews.Connections.{Connection, HttpConnection, is_gpip}

-- The buffer of `out_uint` is filled from its end: `c` is what is in it already.
unfoldable pub digits : ℕ → ℕ → List ℕ → List ℕ
digits zero i c = c
digits (suc fuel) i c =
    let c' = (i % 10 + 48) ∷ c in
    let rest = digits fuel (i / 10) c' in if i / 10 == 0 then c' else rest

-- Five turns fill the buffer of six characters.
unfoldable pub out_uint : ℕ → List ℕ
unfolding digits
out_uint i = digits 5 i []

-- `out_str`: the characters before the first zero
unfoldable pub out_str : List ℕ → List ℕ
out_str [] = []
out_str (c ∷ cs) = if c == 0 then [] else c ∷ out_str cs

-- `server_push` at one connection: handlers are the same when their addresses are.
abbrev pub is_handler : OutputHandler → Option OutputHandler → Bool
is_handler h none = false
is_handler h (some h') = h'.addr == h.addr

unfoldable pub push : OutputHandler → Connection → Connection
push handler c =
    if not (is_gpip c) && is_handler handler c.output_handler
    then record c {
      http = record c.http {
        comet_send_ack = false;
        final_outseqno = sub32 c.http.next_outseqno 1;
      };
    }
    else c

unfoldable pub server_push : OutputHandler → List Connection → Bool × List Connection
unfolding push
server_push handler cs =
    if handler.handler_comet then (true, map (push handler) cs) else (false, cs)

-- how a 16-bit argument of a request is read in core/input.c: one character, and all of them
unfoldable pub arg_ui16_char : ℕ → ℕ → ℕ
arg_ui16_char arg c = u16 (u16 (arg * 10) + 2 ^ 16 + c - 48)

unfoldable pub read_ui16 : List ℕ → ℕ → ℕ
unfolding arg_ui16_char
read_ui16 [] arg = arg
read_ui16 (c ∷ cs) arg = read_ui16 cs (arg_ui16_char arg c)
