-- ===== src/Receive/Tcp/Laws.antt =====
-- Acknowledgements and the window of bytes in flight.
use smews.Base.{
  ℕ, ◌+◌, ◌-◌, ◌^◌, ◌≡◌, ◌≢◌, ◌≤◌, ◌<◌, refl, ◌∙◌, arith, false, not, ◌&&◌, Option, none, some,
  ◌==◌, if◌then◌else◌, sub32, Bool-cases, inl, inr, ◌⊎◌,
}
use smews.Handlers.{OutputHandler}
use smews.Connections.{Connection, something_to_send}
use smews.Receive.Tcp.{
  duplicate_ack, ack_is_valid, ack_inflight, clear_handler, clear_finished, acknowledge, Deferred,
  is_some,
}

clear_handler-http :
    (handler : OutputHandler) (c : Connection) (d : Deferred)
    → (clear_handler handler c d).0.http ≡ c.http
unfolding clear_handler
clear_handler-http handler c d =
    elim (Bool-cases ((c.http.inflight == 0) && not (something_to_send c))) [
      | inl e ↦ elim (Bool-cases c.http.comet_streaming) [
        | inl e' ↦ rw (e, e') refl
        | inr e' ↦ rw (e, e') refl
      ]
      | inr e ↦ rw e refl
    ]

-- Taking a handler away leaves the part of HTTP as it is.
clear_finished-http :
    (c : Connection) (d : Deferred) (o : Option OutputHandler)
    → c.output_handler ≡ o
    → (clear_finished c d).0.http ≡ c.http
unfolding clear_finished
clear_finished-http c d none e = rw e refl
clear_finished-http c d (some handler) e =
    rw e (clear_handler-http handler (record c { output_handler = some handler }) d)

pub acknowledge-http :
    (inack : ℕ) (c : Connection)
    → (acknowledge inack c).0.http ≡ ack_inflight inack (duplicate_ack inack c.http)
unfolding acknowledge
acknowledge-http inack c = clear_finished-http _ _ c.output_handler refl

clear_handler-clean :
    (handler : OutputHandler) (c : Connection) (d : Deferred)
    → (clear_handler handler c d).1.clean_service ≡ d.clean_service
unfolding clear_handler
clear_handler-clean handler c d =
    elim (Bool-cases ((c.http.inflight == 0) && not (something_to_send c))) [
      | inl e ↦ elim (Bool-cases (is_some c.http.generator_service)) [
        | inl e' ↦ rw (e, e') refl
        | inr e' ↦ rw (e, e') refl
      ]
      | inr e ↦ rw e refl
    ]

clear_finished-clean :
    (c : Connection) (d : Deferred) (o : Option OutputHandler)
    → c.output_handler ≡ o
    → (clear_finished c d).1.clean_service ≡ d.clean_service
unfolding clear_finished
clear_finished-clean c d none e = rw e refl
clear_finished-clean c d (some handler) e =
    rw e (clear_handler-clean handler (record c { output_handler = some handler }) d)

acknowledge-clean :
    (inack : ℕ) (c : Connection)
    → (acknowledge inack c).1.clean_service ≡ (
        ack_is_valid inack (duplicate_ack inack c.http)
        && is_some (duplicate_ack inack c.http).generator_service)
unfolding acknowledge
acknowledge-clean inack c = clear_finished-clean _ _ c.output_handler refl

-- An acknowledgement above 0 within the window of bytes in flight, which does not wrap at 2 ^ 32: when it acknowledges
-- none of them, the next byte to send is the first of them again and none is in flight; otherwise those behind it
-- stay in flight.
pub acknowledge-window :
    (inack : ℕ) (c : Connection)
    → 0 < inack
    → inack ≤ c.http.next_outseqno
    → c.http.next_outseqno ≤ inack + c.http.inflight
    → c.http.next_outseqno < 2 ^ 32
    → c.http.inflight < 2 ^ 16
    → c.http.inflight ≤ c.http.next_outseqno
    → ((acknowledge inack c).0.http.next_outseqno
        ≡ (if c.http.next_outseqno == inack + c.http.inflight then inack else c.http.next_outseqno))
      × ((acknowledge inack c).0.http.inflight ≡ (
          if c.http.next_outseqno == inack + c.http.inflight
          then 0
          else c.http.next_outseqno - inack))
unfolding duplicate_ack ack_inflight ack_is_valid
acknowledge-window inack c pos le low w small fit = rw (acknowledge-http inack c) (ground arith)

-- An acknowledgement that is 0 or beyond the next byte to send, and that is not the first byte in
-- flight modulo 2 ^ 32, changes neither the window nor the rest of the part of HTTP, and no segment of a
-- service is given back for it.
acknowledge-refused :
    (inack : ℕ) (c : Connection)
    → (inack ≡ 0) ⊎ (c.http.next_outseqno < inack)
    → sub32 c.http.next_outseqno c.http.inflight ≢ inack
    → ((acknowledge inack c).0.http ≡ c.http) × ((acknowledge inack c).1.clean_service ≡ false)
unfolding duplicate_ack ack_inflight ack_is_valid
acknowledge-refused inack c out differ =
    (acknowledge-http inack c ∙ (ground arith), acknowledge-clean inack c ∙ (ground arith))
