-- ===== src/GpIp/Exchange.antt =====
-- A packet of another IP protocol, from its reception to its answer.
use mathlib.Core.Path.{subst}
use smews.Base.{
  ℕ, ◌+◌, ◌*◌, ◌^◌, ◌≡◌, ◌≤◌, ◌<◌, refl, sym, ap, ◌∙◌, true, false, Option, some, List, [], ◌∷◌,
  ◌++◌, ◌==◌, if◌then◌else◌, u8,
}
use smews.Memory.{Allocator, mem_alloc, mem_free}
use smews.Memory.Chain.{Span, Holds}
use smews.Memory.Alloc.{first_fit}
use smews.Memory.Reuse.{mem_free-mem_alloc}
use smews.Service.{Sizes}
use smews.Handlers.{OutputHandler, is_gpip_data, is_gpip_handler, gpip_get_output_handler}
use smews.Connections.{Connection, is_gpip, handler_is_gpip, something_to_send}
use smews.Connections.Ring.{put, insert, unlink}
use smews.Connections.Ring.Laws.{NotMem, IsRing, put_self, insert-append, unlink-rotate}
use smews.Connections.Store.{Store, free_connection}
use smews.Connections.Store.Laws.{add_connection-some, free_connection-gpip}
use smews.Send.Packet.{CurrOutput}
use smews.Send.Segment.{smews_send_packet}
use smews.Send.Select.{able_to_send}
use smews.GpIp.{
  set_conn, wants_to_send, deliver, receive_gpip, gpip_max_bytes, gpip_output, close_sent,
  send_gpip,
}
use smews.GpIp.Output.{found-gpip, IsRing-conn, packet_conn, sent_packet, gpip_output-sent}

module _ (words fuel n p : ℕ) (z : Sizes) (resources : List OutputHandler)
    (dopacketin : OutputHandler → Connection → ℕ) (protocol packet_length : ℕ) (tmp : Connection)
    (s : Store) (bs rest : List Span) (xs : List ℕ) (h : OutputHandler) where
  abbrev given : Connection
  given = record tmp { output_handler = some h; gpip = record tmp.gpip { protocol = protocol } }

  abbrev asked : ℕ
  asked = u8 (dopacketin h (packet_conn h protocol packet_length tmp))

  -- the store with the connection, and without it again
  abbrev opened : Allocator → Store
  opened heap =
      set_conn p (wants_to_send asked (packet_conn h protocol packet_length tmp))
        (record s { heap = heap; ring = insert p given s.ring })

  receive-given :
      (heap : Allocator)
      → gpip_get_output_handler protocol resources ≡ some h
      → mem_alloc fuel z.connection_size s.heap ≡ some (some p, heap)
      → (insert p given s.ring).conn p ≡ given
      → receive_gpip fuel z resources dopacketin protocol packet_length tmp s
        ≡ (if asked == 0 then free_connection fuel z p (opened heap) else some (opened heap))
  unfolding receive_gpip deliver
  receive-given heap found allocs stored =
      rw (receive_gpip, found, add_connection-some fuel z given s p heap allocs, stored) refl

  close :
      (t : Store) (heap : Allocator)
      → IsRing t.ring (xs ++ (p ∷ []))
      → is_gpip (t.ring.conn p) ≡ true
      → mem_free fuel (some p) z.connection_size t.heap ≡ some heap
      → (t' : Store) × (free_connection fuel z p t ≡ some t')
        × (IsRing t'.ring xs × (t'.heap ≡ heap))
  close t heap ring g frees = (
    record t { heap = heap; ring = unlink p t.ring },
    free_connection-gpip fuel z p t heap g frees,
    (unlink-rotate p t.ring xs [] ring, refl),
  )

  opened-IsRing :
      (heap : Allocator)
      → IsRing (insert p given s.ring) (xs ++ (p ∷ []))
      → IsRing (opened heap).ring (xs ++ (p ∷ []))
  opened-IsRing heap ring =
      IsRing-conn (insert p given s.ring) (opened heap).ring.conn (xs ++ (p ∷ [])) ring

  answered-gpip :
      (now : ℕ) → gpip_get_output_handler protocol resources ≡ some h → is_gpip_handler h ≡ true
  unfolding is_gpip_handler
  answered-gpip now found = found-gpip protocol resources h found

  opened-gpip :
      (heap : Allocator)
      → gpip_get_output_handler protocol resources ≡ some h
      → is_gpip ((opened heap).ring.conn p) ≡ true
  unfolding is_gpip handler_is_gpip
  opened-gpip heap found =
      ap is_gpip (
        put_self (insert p given s.ring).conn p
          (wants_to_send asked (packet_conn h protocol packet_length tmp)))
      ∙ answered-gpip 0 found

  opened-able :
      (heap : Allocator)
      → gpip_get_output_handler protocol resources ≡ some h
      → (asked == 0) ≡ false
      → able_to_send ((opened heap).ring.conn p) ≡ true
  unfolding able_to_send something_to_send is_gpip handler_is_gpip
  opened-able heap found answers =
      ap able_to_send (
        put_self (insert p given s.ring).conn p
          (wants_to_send asked (packet_conn h protocol packet_length tmp)))
      ∙ rw (answered-gpip 0 found, answers) refl

  -- A packet of a protocol with a handler that answers 0, where first fit finds room for a connection at an address where
  -- none is, and with more fuel than words, leaves the ring of the connections and the free spans as they were.
  receive_gpip-silent :
      Holds words s.heap bs
      → words < fuel
      → 0 < z.connection_size
      → z.connection_size ≤ 4 * n
      → 4 * n < z.connection_size + 4
      → n < 2 ^ 14
      → first_fit n bs ≡ some (p, rest)
      → IsRing s.ring xs
      → NotMem p xs
      → gpip_get_output_handler protocol resources ≡ some h
      → (asked == 0) ≡ true
      → (s'' : Store) × (receive_gpip fuel z resources dopacketin protocol packet_length tmp s
          ≡ some s'')
        × IsRing s''.ring xs
        × Holds words s''.heap bs
  receive_gpip-silent hold f pos l u small fit ring new found silent =
      let (heap', heap'', allocs, less, frees, holds) =
        mem_free-mem_alloc words fuel z.connection_size n p s.heap bs rest hold f pos l u small
          fit in
      let (appended, stored, others) = insert-append p given s.ring xs ring new in
      let (s'', closes, back) =
        close (opened heap') heap'' (opened-IsRing heap' appended) (opened-gpip heap' found)
          frees in
      (
        s'',
        receive-given heap' found allocs stored ∙ rw silent closes,
        back.0,
        subst (λ a. Holds words a bs) (sym back.1) holds,
      )

  -- the connection once its answer is sent at the time `now`
  abbrev answered : ℕ → Connection → Connection
  answered now c = record (wants_to_send 0 c) { http = record c.http { transmission_time = now } }

  -- the connection with its handler's answer
  abbrev answering : Connection
  answering = wants_to_send asked (packet_conn h protocol packet_length tmp)

  module _ (now local_ip : ℕ) (mtu : Option ℕ) (out : CurrOutput)
      (dopacketout : Connection → List ℕ) where
    abbrev packet : Connection → Option (List ℕ)
    packet c = sent_packet z.output_buffer_size local_ip mtu out (dopacketout c) h c

    sends :
        (c : Connection)
        → is_gpip_data h.handler_data ≡ true
        → smews_send_packet 0 now local_ip
            (gpip_output (gpip_max_bytes z.output_buffer_size mtu) out (dopacketout c))
            h
            (wants_to_send 0 c)
          ≡ (packet c, answered now c)
    unfolding smews_send_packet
    sends c g =
        rw (gpip_output-sent (gpip_max_bytes z.output_buffer_size mtu) out (dopacketout c), g) refl

    closes-sent :
        (t t' : Store) (o : Option (List ℕ)) (c : Connection)
        → free_connection fuel z p (set_conn p c t) ≡ some t'
        → close_sent fuel z p t (o, c) ≡ some (o, t')
    unfolding close_sent
    closes-sent t t' o c closes = rw (close_sent, closes) refl

    send-sent :
        (t t' : Store) (c : Connection)
        → t.ring.conn p ≡ c
        → is_gpip_data h.handler_data ≡ true
        → free_connection fuel z p (set_conn p (answered now c) t) ≡ some t'
        → send_gpip fuel z now local_ip mtu out dopacketout h p t ≡ some (packet c, t')
    unfolding send_gpip
    send-sent t t' c e g closes =
        ap
          (λ c. close_sent fuel z p t (
            smews_send_packet 0 now local_ip
              (gpip_output (gpip_max_bytes z.output_buffer_size mtu) out (dopacketout c)) h
              (wants_to_send 0 c)))
          e
        ∙ ap (close_sent fuel z p t) (sends c g)
        ∙ closes-sent t t' (packet c) (answered now c) closes

    -- A packet of a protocol with a handler that does not answer 0 modulo 256, where first fit finds room at an address where no
    -- connection is, and with more fuel than words, gets a connection behind all others that is able to send. Sending what
    -- that handler gives to `out_c`, cut to the bytes that fit, leaves the ring and the free spans as before the packet.
    pub send_gpip-receive_gpip :
        Holds words s.heap bs
        → words < fuel
        → 0 < z.connection_size
        → z.connection_size ≤ 4 * n
        → 4 * n < z.connection_size + 4
        → n < 2 ^ 14
        → first_fit n bs ≡ some (p, rest)
        → IsRing s.ring xs
        → NotMem p xs
        → gpip_get_output_handler protocol resources ≡ some h
        → (asked == 0) ≡ false
        → (s' s'' : Store) × (receive_gpip fuel z resources dopacketin protocol packet_length tmp s
            ≡ some s')
          × IsRing s'.ring (xs ++ (p ∷ []))
          × (able_to_send (s'.ring.conn p) ≡ true)
          × (send_gpip fuel z now local_ip mtu out dopacketout h p s'
              ≡ some (
                sent_packet z.output_buffer_size local_ip mtu out
                    (dopacketout answering)
                    h
                    answering,
                s'',
              ))
          × IsRing s''.ring xs
          × Holds words s''.heap bs
    unfolding is_gpip is_gpip_handler
    send_gpip-receive_gpip hold f pos l u small fit ring new found answers =
        let (heap', heap'', allocs, less, frees, holds) =
          mem_free-mem_alloc words fuel z.connection_size n p s.heap bs rest hold f pos l u small
            fit in
        let (appended, stored, others) = insert-append p given s.ring xs ring new in
        let (s'', closes, back) =
          close (set_conn p (answered now answering) (opened heap')) heap''
            (IsRing-conn (opened heap').ring
              (put (opened heap').ring.conn p (answered now answering)) (xs ++ (p ∷ []))
              (opened-IsRing heap' appended))
            (ap is_gpip (put_self (opened heap').ring.conn p (answered now answering))
              ∙ answered-gpip now found)
            frees in
        (
          opened heap',
          s'',
          receive-given heap' found allocs stored ∙ rw answers refl,
          opened-IsRing heap' appended,
          opened-able heap' found answers,
          send-sent (opened heap') s'' answering (put_self (insert p given s.ring).conn p answering)
              (found-gpip protocol resources h found) closes,
          back.0,
          subst (λ a. Holds words a bs) (sym back.1) holds,
        )
