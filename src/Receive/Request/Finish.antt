-- ===== src/Receive/Request/Finish.antt =====
-- The start of the parsing of a segment and what follows it, in `smews_receive` of core/input.c, built without POST.
pub mod Command
pub mod Get
pub mod Lost
use smews.Base.{
  ℕ, ◌+◌, ◌-◌, ◌^◌, ◌%◌, Bool, true, false, not, ◌&&◌, ◌||◌, Option, none, some, List, [], ◌==◌,
  if◌then◌else◌, u32, sub32, length,
}
use smews.Memory.{Allocator}
use smews.Handlers.{
  OutputHandler, HandlerData, control, file, generator, general_ip, ArgRef, arg_str,
}
use smews.Connections.{
  Connection, HttpConnection, ParsingState, parsing_out, parsing_cmd, parsing_url, parsing_end,
  is_established,
}
use smews.Receive.Request.{Site, Parse, nth, is_cmd, is_404, Parsed, parsed, crashed, parse_chars}

abbrev pub is_out : ParsingState → Bool
is_out parsing_out = true
is_out _ = false

abbrev pub is_end : ParsingState → Bool
is_end parsing_end = true
is_end _ = false

abbrev pub no_arg : ArgRef
no_arg = record { arg_type = arg_str; arg_size = 0; arg_offset = 0 }

unfoldable pub begin_http : Site → HttpConnection → HttpConnection
begin_http site h =
    if is_out h.parsing_state
    then record h {
      args = none;
      arg_ref_index = 128;
      blob = site.blob_http_rqt;
      parsing_state = parsing_cmd;
      ready_to_send = true;
    }
    else h

-- also the handler that the connection has from here on
unfoldable pub begin_handler : Connection → Option OutputHandler
begin_handler c = if is_out c.http.parsing_state then none else c.output_handler

-- the argument whose value goes on in this segment
unfoldable pub begin_arg : Option OutputHandler → HttpConnection → Option ArgRef
begin_arg handler h =
    if h.arg_ref_index == 128
    then some no_arg
    else elim handler [ none ↦ none | some o ↦ nth o.args_index h.arg_ref_index ]

unfoldable pub begin : Site → Connection → (ℕ → ℕ) → Allocator → Option Parse
unfolding begin_http begin_handler begin_arg
begin site c bytes heap =
    let h = begin_http site c.http in
    elim (begin_arg (begin_handler c) h) [
      | none ↦ none
      | some r ↦ some (record {
        http = h;
        output_handler = begin_handler c;
        blob = h.blob;
        arg_ref = r;
        bytes = bytes;
        heap = heap;
      })
    ]

-- An unknown URL ends the parsing.
unfoldable pub end_unknown : Site → Option OutputHandler → HttpConnection → HttpConnection
unfolding is_404
end_unknown site handler h =
    if is_404 site handler && not (is_cmd h.parsing_state)
    then record h { parsing_state = parsing_end; ready_to_send = true }
    else h

unfoldable pub final_outseqno : ℕ → HandlerData → ℕ
final_outseqno next (file n parts bytes) = u32 (next + n)
final_outseqno next _ = sub32 next 1

-- The connection gets the handler of its request.
unfoldable pub start_answer : ℕ → OutputHandler → Connection → Connection
unfolding final_outseqno
start_answer inack h c = if is_cmd c.http.parsing_state then c else record c {
  output_handler = some h;
  http = record c.http {
    next_outseqno = inack;
    final_outseqno = final_outseqno inack h.handler_data;
    comet_send_ack = h.handler_comet;
    comet_passive = false;
    comet_streaming = false;
  };
}

abbrev pub stop_parsing : Site → List ℕ → HttpConnection → HttpConnection
stop_parsing site blob h =
    if is_end h.parsing_state || is_cmd h.parsing_state
    then record h { parsing_state = parsing_out; blob = site.blob_http_rqt; arg_ref_index = 128 }
    else record h { blob = blob }

unfoldable pub answer : Site → ℕ → List ℕ → Option OutputHandler → Connection → Connection
unfolding start_answer
answer site inack blob none c = record c { http = record c.http { blob = blob } }
answer site inack blob (some h) c =
    let c' = start_answer inack h c in record c' { http = stop_parsing site blob c'.http }

unfoldable pub finish : Site → ℕ → Parse → Connection → Connection
unfolding end_unknown answer
finish site inack p c =
    answer site inack p.blob p.output_handler
      (record c { http = end_unknown site p.output_handler p.http })

-- the connection, the bytes of the arguments and the allocator
pub data Request : Type 0 where
  requested : Connection → (ℕ → ℕ) → Allocator → Request
  null_pointer : Request

unfoldable pub wants_data : List ℕ → Bool → Connection → Bool
wants_data segment new_data c =
    not (length segment == 0)
    && is_established c.http.tcp_state
    && (new_data || elim c.output_handler [ none ↦ true | some h ↦ false ])

unfoldable pub request :
    Site → ℕ → ℕ → List ℕ → Bool → Connection → (ℕ → ℕ) → Allocator → Option Request
unfolding wants_data begin parse_chars finish
request site fuel inack segment new_data c bytes heap =
    if wants_data segment new_data c
    then elim (begin site c bytes heap) [
      | none ↦ some null_pointer
      | some p ↦ elim (parse_chars site fuel segment p) [
        | none ↦ none
        | some crashed ↦ some null_pointer
        | some (parsed q left) ↦ some (
            requested (finish site inack q (record c { output_handler = begin_handler c })) q.bytes
              q.heap)
      ]
    ]
    else some (requested c bytes heap)
