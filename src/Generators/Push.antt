-- ===== src/Generators/Push.antt =====
-- What a push does to the connections that listen.
use smews.Base.{
  ℕ, ◌^◌, ◌≡◌, ◌<◌, arith, Bool, true, false, not, ◌&&◌, ◌||◌, some, ◌==◌, if◌then◌else◌, sub32,
  ne-==,
}
use smews.Handlers.{OutputHandler, is_gpip_handler, is_control_data}
use smews.Connections.{Connection, tcp_established, is_gpip, http_to_send, something_to_send}
use smews.Generators.{push}

differs : (n : ℕ) → n < 2 ^ 32 → (n == sub32 n 1) ≡ false
differs n w = ne-== n (sub32 n 1) (omega arith)

-- A push on the handler makes an established connection of HTTP that waits on it have something to send.
push-something_to_send :
    (handler : OutputHandler) (c : Connection) (h : OutputHandler)
    → c.output_handler ≡ some h
    → is_gpip_handler h ≡ false
    → c.http.tcp_state ≡ tcp_established
    → c.http.next_outseqno < 2 ^ 32
    → (h.addr == handler.addr) ≡ true
    → something_to_send (push handler c) ≡ true
unfolding push something_to_send http_to_send is_gpip
push-something_to_send handler c h e g s w same =
    rw (e, g, same, s, differs c.http.next_outseqno w, g) (go (is_control_data h.handler_data))
  where
    go : (b : Bool) → (if b || false then true else (true && not false)) ≡ true
    go b = ground arith
