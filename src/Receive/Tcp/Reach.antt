-- ===== src/Receive/Tcp/Reach.antt =====
-- The states of TCP that a connection goes through.
use mathlib.Core.Path.{subst₂}
use smews.Base.{
  ℕ, ◌≡◌, refl, sym, ap, ◌∙◌, Bool, true, false, leb, ◌==◌, if◌then◌else◌, Bool-cases, sub8, sub32,
  inl, inr,
}
use smews.Handlers.{tcp_fin, tcp_syn, tcp_rst}
use smews.Connections.{
  Connection, HttpConnection, TcpState, tcp_listen, tcp_syn_rcvd, tcp_established, tcp_closing,
  tcp_last_ack,
}
use smews.Receive.Tcp.Laws.{acknowledge-http}
use smews.Receive.Tcp.{
  TcpHeader, acknowledge, duplicate_ack, ack_inflight, ack_is_valid, negotiate_mss,
  tcp_header_length, advance_state, state_machine, has_flag, receive_tcp, new_connection,
  current_inseqno,
}

-- One segment in the states of a server that never closes first. `flags` and `pending` are the flags of
-- the segment and whether bytes are still in flight once its acknowledgement is taken.
pub data Step (flags : ℕ) (pending : Bool) : TcpState → TcpState → Type 0 where
  stay : {t : TcpState} → Step flags pending t t
  syn : has_flag flags tcp_syn ≡ true → Step flags pending tcp_listen tcp_syn_rcvd
  acked : pending ≡ false → Step flags pending tcp_syn_rcvd tcp_established
  fin : has_flag flags tcp_fin ≡ true → Step flags pending tcp_established tcp_last_ack
  rst :
      has_flag flags tcp_fin ≡ false
      → has_flag flags tcp_rst ≡ true
      → Step flags pending tcp_established tcp_listen
  last : Step flags pending tcp_last_ack tcp_listen

abbrev pub is_pending : Connection → Bool
is_pending c = if c.http.inflight == 0 then false else true

state_machine-Step :
    (t : TcpState) (flags : ℕ) (c : Connection)
    → c.http.tcp_state ≡ t
    → Step flags (is_pending c) t (state_machine t flags c).http.tcp_state
unfolding state_machine
state_machine-Step tcp_established flags c e = elim (Bool-cases (has_flag flags tcp_fin)) [
  | inl f ↦ rw f (fin f)
  | inr f ↦ elim (Bool-cases (has_flag flags tcp_rst)) [
    | inl r ↦ rw (f, r) (rst f r)
    | inr r ↦ rw (f, r, e) stay
  ]
]
state_machine-Step tcp_listen flags c e = elim (Bool-cases (has_flag flags tcp_syn)) [
  | inl f ↦ rw f (syn f)
  | inr f ↦ rw (f, e) stay
]
state_machine-Step tcp_syn_rcvd flags c e = elim (Bool-cases (c.http.inflight == 0)) [
  | inl z ↦ rw z (acked refl)
  | inr z ↦ rw (z, e) stay
]
state_machine-Step tcp_last_ack flags c e = last
state_machine-Step tcp_closing flags c e = rw e stay

advance_state-Step :
    (t : TcpHeader) (c : Connection)
    → Step t.flags (is_pending c) c.http.tcp_state (advance_state t c).http.tcp_state
unfolding advance_state
advance_state-Step t c = elim (Bool-cases (leb c.http.current_inseqno (current_inseqno t))) [
  | inl new ↦ rw new (state_machine-Step c.http.tcp_state t.flags _ refl)
  | inr old ↦ rw old stay
]

duplicate_ack-tcp_state :
    (inack : ℕ) (h : HttpConnection) → (duplicate_ack inack h).tcp_state ≡ h.tcp_state
unfolding duplicate_ack
duplicate_ack-tcp_state inack h = elim (Bool-cases (sub32 h.next_outseqno h.inflight == inack)) [
  | inl e ↦ rw e refl
  | inr e ↦ rw e refl
]

ack_inflight-tcp_state :
    (inack : ℕ) (h : HttpConnection) → (ack_inflight inack h).tcp_state ≡ h.tcp_state
unfolding ack_inflight
ack_inflight-tcp_state inack h = elim (Bool-cases (ack_is_valid inack h)) [
  | inl e ↦ rw e refl
  | inr e ↦ rw e refl
]

acknowledge-tcp_state :
    (inack : ℕ) (c : Connection) → (acknowledge inack c).0.http.tcp_state ≡ c.http.tcp_state
acknowledge-tcp_state inack c =
    ap (λ h. h.tcp_state) (acknowledge-http inack c)
    ∙ ack_inflight-tcp_state inack (duplicate_ack inack c.http)
    ∙ duplicate_ack-tcp_state inack c.http

negotiate_mss-tcp_state :
    (max_mss : ℕ) (t : TcpHeader) (h : HttpConnection)
    → (negotiate_mss max_mss t h).tcp_state ≡ h.tcp_state
unfolding negotiate_mss
negotiate_mss-tcp_state max_mss t h = elim (Bool-cases (leb 4 (sub8 (tcp_header_length t) 20))) [
  | inl e ↦ rw e refl
  | inr e ↦ rw e refl
]

receive_tcp-tcp_state :
    (max_mss : ℕ) (t : TcpHeader) (c : Connection)
    → (advance_state t (acknowledge t.inack c).0).http.tcp_state
      ≡ (receive_tcp max_mss t c).0.http.tcp_state
unfolding receive_tcp
receive_tcp-tcp_state max_mss t c = sym (negotiate_mss-tcp_state max_mss t _)

-- Every segment takes the connection along one edge of Step, where `pending` is whether bytes are
-- still in flight behind its acknowledgement.
pub receive_tcp-Step :
    (max_mss : ℕ) (t : TcpHeader) (c : Connection)
    → Step t.flags
        (is_pending (acknowledge t.inack c).0)
        c.http.tcp_state
        (receive_tcp max_mss t c).0.http.tcp_state
receive_tcp-Step max_mss t c =
    subst₂ (Step t.flags (is_pending (acknowledge t.inack c).0)) (acknowledge-tcp_state t.inack c)
      (receive_tcp-tcp_state max_mss t c) (advance_state-Step t (acknowledge t.inack c).0)

-- What becomes of a connection: it starts as a new one, receives segments, and is changed by the rest of
-- the program, which leaves the state of TCP to the reception.
pub data Reachable : Connection → Type 0 where
  fresh : (now : ℕ) (tmp : Connection) → Reachable (new_connection now tmp)
  received :
      (max_mss : ℕ) (t : TcpHeader) (c : Connection)
      → Reachable c
      → Reachable (receive_tcp max_mss t c).0
  served : (c c' : Connection) → Reachable c → c'.http.tcp_state ≡ c.http.tcp_state → Reachable c'

abbrev pub NotClosing : TcpState → Type 0
NotClosing tcp_closing = ⊥
NotClosing _ = Unit {0}

Step-NotClosing :
    (flags : ℕ) (pending : Bool) (t t' : TcpState)
    → Step flags pending t t'
    → NotClosing t
    → NotClosing t'
Step-NotClosing flags pending t _ stay n = n
Step-NotClosing flags pending tcp_listen tcp_syn_rcvd (syn f) n = tt
Step-NotClosing flags pending tcp_syn_rcvd tcp_established (acked z) n = tt
Step-NotClosing flags pending tcp_established tcp_last_ack (fin f) n = tt
Step-NotClosing flags pending tcp_established tcp_listen (rst f r) n = tt
Step-NotClosing flags pending tcp_last_ack tcp_listen last n = tt

fresh-NotClosing : (now : ℕ) (tmp : Connection) → NotClosing (new_connection now tmp).http.tcp_state
unfolding new_connection
fresh-NotClosing now tmp = tt

-- No connection ever is in the state tcp_closing.
pub Reachable-NotClosing : (c : Connection) → Reachable c → NotClosing c.http.tcp_state
Reachable-NotClosing _ (fresh now tmp) = fresh-NotClosing now tmp
Reachable-NotClosing _ (received max_mss t c r) =
    Step-NotClosing t.flags (is_pending (acknowledge t.inack c).0) c.http.tcp_state
      (receive_tcp max_mss t c).0.http.tcp_state (receive_tcp-Step max_mss t c)
      (Reachable-NotClosing c r)
Reachable-NotClosing _ (served c c' r e) = rw e (Reachable-NotClosing c r)
