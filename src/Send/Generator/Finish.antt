-- ===== src/Send/Generator/Finish.antt =====
-- The end of the branch of `smews_send` in core/output.c for a generator: the header of HTTP, the packets,
-- and what is given back; then the whole branch.
use smews.Base.{
  ℕ, Bool, true, false, not, ◌&&◌, Option, none, some, List, [], ◌∷◌, ◌++◌, ltb, ◌==◌,
  if◌then◌else◌,
}
use smews.Memory.{mem_free}
use smews.Handlers.{OutputHandler, Persistence}
use smews.Service.{Sizes, clean_service}
use smews.Connections.{Connection}
use smews.Connections.Ring.{put}
use smews.Generators.{is_handler}
use smews.Send.Packet.{CurrOutput}
use smews.Send.Segment.{smews_send_packet}
use smews.Send.Select.{able_to_send}
use smews.Send.Generate.{Point, select_header}
use smews.Send.Generator.{Site, and_then, with_heap, open_service, prepare, is_retransmitting}
use smews.Send.Generator.Segment.{with_header, make_segment}

unfoldable pub choose_header : Bool → Site → Site
unfolding select_header
choose_header stream s = with_header (select_header stream s.has_ended s.out.service_header) s

-- The packets of some connections, and the connections behind them.
abbrev pub Sent : Type 0
Sent = List (Option (List ℕ)) × Connection

abbrev pub send_to : ℕ → ℕ → ℕ → CurrOutput → OutputHandler → Connection → Sent
send_to nbits now local_ip out handler c =
    let (packet, c') = smews_send_packet nbits now local_ip out handler c in (packet ∷ [], c')

-- The last characters of streamed data end the answer of a connection.
abbrev pub end_stream : Bool → Sent → Sent
end_stream has_ended (packets, c) =
    if has_ended
    then (packets, record c { http = record c.http { final_outseqno = c.http.next_outseqno } })
    else (packets, c)

-- `if this is a comet handler, send the segment to all listenning clients`: at one connection
unfoldable pub send_comet : ℕ → ℕ → ℕ → CurrOutput → Bool → OutputHandler → Connection → Sent
unfolding smews_send_packet able_to_send
send_comet nbits now local_ip out has_ended handler c =
    if is_handler handler c.output_handler && able_to_send c
    then (if not handler.handler_stream
        then send_to nbits now local_ip out handler c
        else end_stream has_ended (
            if ltb 0 out.content_length then send_to nbits now local_ip out handler c else ([], c)))
    else ([], c)

unfoldable pub send_all :
    ℕ
    → ℕ
    → ℕ
    → CurrOutput
    → Bool
    → OutputHandler
    → List Connection
    → List (Option (List ℕ)) × List Connection
unfolding send_comet
send_all nbits now local_ip out has_ended handler [] = ([], [])
send_all nbits now local_ip out has_ended handler (c ∷ cs) =
    let (packets, c') = send_comet nbits now local_ip out has_ended handler c in
    let (more, cs') = send_all nbits now local_ip out has_ended handler cs in
    (packets ++ more, c' ∷ cs')

-- `send the segment`: the active connection is the last one of the ring
unfoldable pub send_segment : ℕ → ℕ → ℕ → OutputHandler → Site → Site
unfolding send_all send_comet smews_send_packet
send_segment nbits now local_ip handler s =
    if handler.handler_comet
    then (let (packets, others) = send_all nbits now local_ip s.out s.has_ended handler s.others in
        let (more, active) = send_comet nbits now local_ip s.out s.has_ended handler s.active in
        record s { packets = packets ++ more; others = others; active = active })
    else (let (packets, active) = send_to nbits now local_ip s.out handler s.active in
        record s { packets = packets; active = active })

-- `free the tmp buffer used for non persistent data generation`
unfoldable pub free_buffer : ℕ → Sizes → ℕ → Site → Option (Bool × Site)
free_buffer fuel z a s =
    if (s.services a).is_persistent
    then some (true, s)
    else elim (mem_free fuel s.buffer_at z.output_buffer_size s.stacks.heap) [
      | none ↦ none
      | some heap ↦ some (true, with_heap heap s)
    ]

-- `update next_outseqno for the current context`
unfoldable pub update_service : Bool → ℕ → Site → Site
update_service retransmitting a s = if retransmitting then s else record s {
  services = put s.services a (record (s.services a) {
    service_header = s.out.service_header;
    curr_outseqno = s.active.http.next_outseqno;
  });
}

-- the service of streamed data that has ended and is acknowledged; its coroutine is not cleaned
unfoldable pub clean_stream : ℕ → Sizes → Bool → ℕ → Site → Option (Bool × Site)
clean_stream fuel z stream a s =
    if stream && s.has_ended && (s.active.http.inflight == 0)
    then elim (clean_service fuel z (s.services a) none s.stacks.heap) [
      | none ↦ none
      | some (service, heap) ↦ elim (mem_free fuel (some a) z.service_size heap) [
        | none ↦ none
        | some heap' ↦ some (
          true,
          record (with_heap heap' s) {
            services = put s.services a service;
            active = record s.active { http = record s.active.http { generator_service = none } };
          },
        )
      ]
    ]
    else some (true, s)

-- from the segment to the end of the branch
unfoldable pub send_and_close :
    ℕ → ℕ → ℕ → ℕ → Sizes → OutputHandler → Bool → ℕ → Site → Option (Bool × Site)
unfolding choose_header send_segment free_buffer update_service clean_stream
send_and_close fuel nbits now local_ip z handler retransmitting a s =
    and_then
      (free_buffer fuel z a
        (send_segment nbits now local_ip handler (choose_header handler.handler_stream s)))
      λ t. clean_stream fuel z handler.handler_stream a (update_service retransmitting a t)

unfoldable pub serve_at :
    ℕ → ℕ → ℕ → ℕ → Sizes → (Point → ℕ) → OutputHandler → ℕ → Site → Option (Bool × Site)
unfolding prepare make_segment send_and_close
serve_at fuel nbits now local_ip z sp handler a s =
    and_then (and_then (prepare fuel a s) (make_segment fuel z sp a))
      (send_and_close fuel nbits now local_ip z handler (is_retransmitting a s) a)

-- The whole branch, at a connection with the generator `handler`, which gives the characters `cs`
unfoldable pub send_generator :
    ℕ
    → ℕ
    → ℕ
    → ℕ
    → Sizes
    → (Point → ℕ)
    → OutputHandler
    → Persistence
    → List ℕ
    → Site
    → Option (Bool × Site)
unfolding open_service serve_at
send_generator fuel nbits now local_ip z sp handler prop cs s =
    elim (open_service fuel nbits z handler prop cs s) [
      | none ↦ none
      | some (none, s') ↦ some (false, s')
      | some (some a, s') ↦ serve_at fuel nbits now local_ip z sp handler a s'
    ]
