-- ===== src/Retransmit/Laws.antt =====
-- What a late connection is rewound to, and the stamps that are never late.
use smews.Base.{
  ℕ, ◌+◌, ◌^◌, ◌≡◌, ◌≤◌, ◌<◌, refl, ap₂, arith, Bool, true, false, not, ◌&&◌, List, [], ◌∷◌, map,
  ltb, if◌then◌else◌, u8, u32, le→not_ltb,
}
use smews.Connections.{Connection, is_gpip}
use smews.Receive.Tcp.{is_some}
use smews.Retransmit.{is_late, rewind, retransmit, smews_retransmit}

-- A connection of HTTP with a handler and bytes in flight, sent more than 4 ticks of the clock ago, goes back to
-- the first byte in flight: what it was to send next lies as many bytes further as were in flight.
retransmit-rewinds :
    (now : ℕ) (c : Connection)
    → is_some c.output_handler ≡ true
    → is_gpip c ≡ false
    → c.http.transmission_time + 4 < now
    → 0 < c.http.inflight
    → c.http.inflight < 2 ^ 16
    → c.http.next_outseqno < 2 ^ 32
    → ((retransmit now c).http.inflight ≡ 0)
      × (u32 ((retransmit now c).http.next_outseqno + c.http.inflight) ≡ c.http.next_outseqno)
      × ((retransmit now c).output_handler ≡ c.output_handler)
unfolding retransmit is_late
retransmit-rewinds now c handler http late pos small w = rw (handler, http) (ground arith)

-- every connection was sent at one of the ticks 251 to 255
abbrev pub AllLate : List Connection → Type 0
AllLate [] = Unit {0}
AllLate (c ∷ cs) = (251 ≤ c.http.transmission_time) × AllLate cs

retransmit-late :
    (now : ℕ) (c : Connection) → now < 2 ^ 8 → 251 ≤ c.http.transmission_time → retransmit now c ≡ c
unfolding retransmit is_late
retransmit-late now c w l =
    rw (le→not_ltb (c.http.transmission_time + 4) now (omega arith))
      (go (is_some c.output_handler && not (is_gpip c)))
  where
    go :
        (b : Bool)
        → (if (b && false) && ltb 0 c.http.inflight then record c { http = rewind c.http } else c)
          ≡ c
    go true = refl
    go false = refl

map-late :
    (now : ℕ) (cs : List Connection) → now < 2 ^ 8 → AllLate cs → map (retransmit now) cs ≡ cs
map-late now [] w l = refl
map-late now (c ∷ cs) w l =
    ap₂ (λ x xs. x ∷ xs) (retransmit-late now c w l.0) (map-late now cs w l.1)

-- A segment sent at the ticks 251 to 255 of the clock is never sent again by it: no
-- tick changes a connection with such a stamp, since the clock is of 8 bits and does not get 5 beyond it.
pub smews_retransmit-wrap :
    (last_transmission_time : ℕ) (cs : List Connection)
    → AllLate cs
    → (smews_retransmit last_transmission_time cs).1 ≡ cs
unfolding smews_retransmit
smews_retransmit-wrap last_transmission_time cs l =
    map-late (u8 (last_transmission_time + 1)) cs (omega arith) l
