-- ===== src/GpIp/Output.antt =====
-- The handler of a packet of another IP protocol and the bytes that it gives to `out_c`.
use mathlib.Core.List.{append_assoc, append-nil}
use smews.Base.{
  ℕ, zero, suc, ◌+◌, ◌≡◌, refl, sym, arith, ap, ◌∙◌, true, Option, none, some, List, [], ◌∷◌, ◌++◌,
  ◌==◌, if◌then◌else◌, length, length-append, take, Bool-cases, inl, inr, ==_iff, ne-==,
}
use smews.Handlers.{
  OutputHandler, HandlerData, general_ip, control, file, generator, is_gpip_data,
  gpip_get_output_handler,
}
use smews.Connections.{Connection}
use smews.Connections.Ring.{Ring}
use smews.Connections.Ring.Laws.{IsRing}
use smews.Send.Packet.{CurrOutput}
use smews.Send.Segment.{gpip_packet}
use smews.GpIp.{has_packet, wants_to_send, out_c, out_chars, gpip_max_bytes, gpip_output}

-- The buffer is the first characters that fit.
pub out_chars-full :
    (max : ℕ) (buffer cs : List ℕ) → length buffer ≡ max → out_chars max buffer cs ≡ buffer
unfolding out_chars out_c
out_chars-full max buffer [] e = refl
out_chars-full max buffer (c ∷ cs) e =
    rw ((==_iff (length buffer) max).1 e) (out_chars-full max buffer cs e)

pub out_chars-take :
    (room : ℕ) (max : ℕ) (buffer cs : List ℕ)
    → length buffer + room ≡ max
    → out_chars max buffer cs ≡ buffer ++ take room cs
unfolding out_chars out_c
out_chars-take zero max buffer cs e =
    out_chars-full max buffer cs (omega arith) ∙ sym (append-nil buffer)
out_chars-take (suc room) max buffer [] e = sym (append-nil buffer)
out_chars-take (suc room) max buffer (c ∷ cs) e = rw (ne-== (length buffer) max (omega arith)) (
    out_chars-take room max (buffer ++ (c ∷ [])) cs (omega (arith, length-append buffer (c ∷ [])))
    ∙ append_assoc buffer (c ∷ []) (take room cs))

pub found-gpip :
    (protocol : ℕ) (hs : List OutputHandler) (h : OutputHandler)
    → gpip_get_output_handler protocol hs ≡ some h
    → is_gpip_data h.handler_data ≡ true
unfolding gpip_get_output_handler is_gpip_data
found-gpip protocol [] h e = cc
found-gpip protocol (g ∷ hs) h e = go g.handler_data refl e (found-gpip protocol hs h)
  where
    go :
        (d : HandlerData)
        → g.handler_data ≡ d
        → elim d [
          | general_ip p ↦ if p == protocol then some g else gpip_get_output_handler protocol hs
          | _ ↦ gpip_get_output_handler protocol hs
        ]
          ≡ some h
        → (gpip_get_output_handler protocol hs ≡ some h → is_gpip_data h.handler_data ≡ true)
        → is_gpip_data h.handler_data ≡ true
    go (control l f) i e rest = rest e
    go (file l c b) i e rest = rest e
    go (generator prop) i e rest = rest e
    go (general_ip p) i e rest = elim (Bool-cases (p == protocol)) [
      | inl t ↦
          ap (λ o. elim o [ none ↦ true | some k ↦ is_gpip_data k.handler_data ]) (sym (rw t at e))
          ∙ ap is_gpip_data i
      | inr t ↦ rest (rw t at e)
    ]

pub IsRing-conn :
    (s : Ring) (f : ℕ → Connection) (xs : List ℕ) → IsRing s xs → IsRing (record s { conn = f }) xs
IsRing-conn s f [] h = h
IsRing-conn s f (x ∷ xs) h = h

-- the connection for a packet, before its handler has seen it and with its answer
abbrev pub packet_conn : OutputHandler → ℕ → ℕ → Connection → Connection
packet_conn h protocol packet_length tmp =
    has_packet packet_length
      (record tmp { output_handler = some h; gpip = record tmp.gpip { protocol = protocol } })

-- what the characters of a handler leave in the buffer
abbrev pub sent : ℕ → CurrOutput → List ℕ → CurrOutput
sent max out cs = record out {
  buffer = take max cs;
  content_length = length (take max cs);
  max_bytes = max;
}

-- the packet of the handler `h` with the characters `cs`, for the connection `c`
abbrev pub sent_packet :
    ℕ → ℕ → Option ℕ → CurrOutput → List ℕ → OutputHandler → Connection → Option (List ℕ)
sent_packet size local_ip mtu out cs h c =
    gpip_packet local_ip (sent (gpip_max_bytes size mtu) out cs) (wants_to_send 0 c) h.handler_data

pub gpip_output-sent :
    (max : ℕ) (out : CurrOutput) (cs : List ℕ) → gpip_output max out cs ≡ sent max out cs
gpip_output-sent max out cs =
    ap (λ buffer. record out { buffer = buffer; content_length = length buffer; max_bytes = max })
      (out_chars-take max max [] cs (omega arith))
