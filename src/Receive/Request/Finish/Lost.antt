-- ===== src/Receive/Request/Finish/Lost.antt =====
-- Requests whose URL is read to its end and that are not answered with its resource.
use smews.Base.{ℕ, ◌+◌, ◌≡◌, ◌<◌, ◌^◌, refl, arith, ap, ap₂, ◌∙◌, true, false, some, List, ◌∷◌}
use smews.Memory.{Allocator}
use smews.Handlers.{OutputHandler, ref_ack, get_flags, is_gpip_data}
use smews.Connections.{Connection, parsing_out, parsing_cmd, parsing_url, is_established}
use smews.Send.Select.{acknowledge_only, restore_handler}
use smews.Send.Packet.{CurrOutput, segment_length}
use smews.Send.Segment.{update, advance, smews_send_packet}
use smews.Receive.Tcp.{has_flag}
use smews.Receive.Tree.Ternary.{Ternary}
use smews.Receive.Request.Walk.{parse_chars-stop}
use smews.Receive.Request.Url.{selected, parse_char-space}
use smews.Receive.Request.{Site, Parse, is_404, select_resource, parsed, parse_chars}
use smews.Receive.Request.Finish.{
  begin_handler, no_arg, end_unknown, final_outseqno, start_answer, answer, finish,
}
use smews.Receive.Request.Finish.Command.{HasTrees}

-- a connection whose request is over, with the handler `h`
abbrev pub ended : Site → ℕ → OutputHandler → Connection → Connection
ended site inack h c = record c {
  output_handler = some h;
  http = record c.http {
    arg_ref_index = 128;
    blob = site.blob_http_rqt;
    parsing_state = parsing_out;
    next_outseqno = inack;
    final_outseqno = final_outseqno inack h.handler_data;
    comet_send_ack = h.handler_comet;
    comet_passive = false;
    comet_streaming = false;
  };
}

-- Sending an acknowledgement changes only the time of the transmission.
send_packet-ref_ack :
    (nbits now local_ip : ℕ) (out : CurrOutput) (c : Connection)
    → c.http.next_outseqno < 2 ^ 32
    → c.http.inflight < 2 ^ 16
    → (smews_send_packet nbits now local_ip out ref_ack c).1
      ≡ record c { http = record c.http { transmission_time = now } }
unfolding smews_send_packet update advance segment_length get_flags has_flag is_gpip_data
send_packet-ref_ack nbits now local_ip out c number window =
    ap₂
      (λ n i. record c {
        http = record c.http { transmission_time = now; next_outseqno = n; inflight = i };
      })
      (omega arith) (omega arith)

module _ (site : Site) (fuel inack : ℕ) (p : Parse) (c : Connection) where
  finish-kept :
      (h : OutputHandler) (k : ℕ) (w : List ℕ)
      → p.output_handler ≡ some h
      → is_404 site (some h) ≡ false
      → finish site inack (selected site fuel p k w) c
        ≡ ended site inack h (record c { http = p.http })
  unfolding finish end_unknown answer start_answer select_resource
  finish-kept h k w handler found = rw (handler, found) refl

  -- In a URL with a known handler, at the byte of an argument's name and with ready_to_send at 0, a space ends the request:
  -- the established connection is then acknowledged instead of answered, and when the acknowledgement is sent and the
  -- handler put back, only the time of the last transmission has changed; the number that the segment
  -- acknowledges has 32 bits, the bytes in flight have 16.
  pub request-no_value :
      (h : OutputHandler) (k : ℕ) (w more : List ℕ) (nbits now local_ip : ℕ) (out : CurrOutput)
      → is_established p.http.tcp_state ≡ true
      → inack < 2 ^ 32
      → p.http.inflight < 2 ^ 16
      → p.http.parsing_state ≡ parsing_url
      → p.http.ready_to_send ≡ false
      → p.output_handler ≡ some h
      → is_404 site (some h) ≡ false
      → p.blob ≡ (128 + k) ∷ w
      → (q : Parse) × (parse_chars site fuel (32 ∷ more) p ≡ some (parsed q more))
        × (finish site inack q c ≡ ended site inack h (record c { http = p.http }))
        × (acknowledge_only (ended site inack h (record c { http = p.http })) ≡ (
          some h,
          record (ended site inack h (record c { http = p.http })) {
            output_handler = some ref_ack;
          },
        ))
        × (restore_handler
              (some h)
              (smews_send_packet nbits now local_ip out ref_ack
                (record (ended site inack h (record c { http = p.http })) {
                  output_handler = some ref_ack;
                })).1
            ≡ record (ended site inack h (record c { http = p.http })) {
              http = record (ended site inack h (record c { http = p.http })).http {
                transmission_time = now;
              };
            })
  unfolding acknowledge_only restore_handler
  request-no_value h k w more nbits now local_ip out live number window url wait handler found
        name =
      (
        selected site fuel p k ((128 + k) ∷ w),
        ap (λ b. parse_chars site fuel (32 ∷ more) (record p { blob = b })) name
            ∙ parse_chars-stop site fuel (record p { blob = (128 + k) ∷ w })
                (ap (is_404 site) handler ∙ found) 32 more _ (parse_char-space site fuel p k w url),
        finish-kept h k ((128 + k) ∷ w) handler found,
        rw wait refl,
        ap (restore_handler (some h)) (
              send_packet-ref_ack nbits now local_ip out
                (record (ended site inack h (record c { http = p.http })) {
                  output_handler = some ref_ack;
                })
                number window)
            ∙ rw wait refl,
      )

module _ (site : Site) (fuel inack : ℕ) (commands urls : Ternary)
    (trees : HasTrees site commands urls) (c : Connection) (bytes : ℕ → ℕ) (heap : Allocator) where
  abbrev resumed : Parse
  resumed = record {
    http = c.http;
    output_handler = c.output_handler;
    blob = c.http.blob;
    arg_ref = no_arg;
    bytes = bytes;
    heap = heap;
  }

  begin_handler-cmd : c.http.parsing_state ≡ parsing_cmd → begin_handler c ≡ c.output_handler
  unfolding begin_handler
  begin_handler-cmd cmd = rw cmd refl
