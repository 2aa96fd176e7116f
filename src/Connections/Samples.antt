-- ===== src/Connections/Samples.antt =====
-- A connection of HTTP for the tests of several modules.
use smews.Base.{true, false, some, none, []}
use smews.Handlers.{generator, prop_volatile, ref_ack}
use smews.Connections.{HttpConnection, Connection, tcp_established, parsing_out}

abbrev pub http : HttpConnection
http = record {
  tcp_mss = 1000;
  ready_to_send = true;
  tcp_state = tcp_established;
  next_outseqno = 5000;
  final_outseqno = 9000;
  current_inseqno = 70;
  port = 4000;
  cwnd = 4096;
  inflight = 300;
  blob = [];
  generator_service = none;
  args = none;
  curr_arg = 0;
  arg_ref_index = 128;
  transmission_time = 3;
  parsing_state = parsing_out;
  comet_passive = false;
  comet_send_ack = false;
  comet_streaming = false;
}

abbrev pub client : Connection
client = record {
  ip_addr = 10;
  output_handler = some (record ref_ack { addr = 9; handler_data = generator prop_volatile });
  gpip = record { payload_size = 0; protocol = 0; want_to_send = 0 };
  http = http;
}
