-- ===== src/Receive/Tcp/Tests.antt =====
-- Segments of a connection, and the theorems on them.
use smews.Base.{◌≡◌, refl, arith}
use smews.Connections.{tcp_established, tcp_last_ack}
use smews.Connections.Samples.{client}
use smews.Receive.Tcp.{TcpHeader, acknowledge, receive_tcp, new_connection}
use smews.Receive.Tcp.Laws.{acknowledge-window}
use smews.Receive.Tcp.Reach.{
  Step, is_pending, fresh, received, NotClosing, receive_tcp-Step, Reachable-NotClosing,
}

abbrev fin_segment : TcpHeader
fin_segment = record {
  source_ip = 10;
  source_port = 4000;
  destination_port = 80;
  inseqno = 70;
  inack = 4900;
  offset = 0x50;
  flags = 0x11;
  window = 4096;
  mss = 0;
  packet_length = 20;
}

fin_ends : (receive_tcp 1460 fin_segment client).0.http.tcp_state ≡ tcp_last_ack
unfolding receive_tcp
fin_ends = refl

acknowledge-window_example :
    ((acknowledge 4900 client).0.http.next_outseqno ≡ 5000)
    × ((acknowledge 4900 client).0.http.inflight ≡ 100)
acknowledge-window_example =
    acknowledge-window 4900 client (omega arith) (omega arith) (omega arith) (omega arith)
      (omega arith) (omega arith)

receive_tcp-Step_example :
    Step 0x11
      (is_pending (acknowledge 4900 client).0)
      tcp_established
      (receive_tcp 1460 fin_segment client).0.http.tcp_state
receive_tcp-Step_example = receive_tcp-Step 1460 fin_segment client

Reachable-NotClosing_example :
    NotClosing (receive_tcp 1460 fin_segment (new_connection 3 client)).0.http.tcp_state
Reachable-NotClosing_example =
    Reachable-NotClosing (receive_tcp 1460 fin_segment (new_connection 3 client)).0
      (received 1460 fin_segment (new_connection 3 client) (fresh 3 client))
