-- ===== src/GpIp/Tests.antt =====
-- A ping on a node without connections, and the theorems at it.
use smews.Base.{◌≡◌, refl, arith, true, none, some, [], ◌∷◌, ◌==◌, if◌then◌else◌}
use smews.Memory.{Cells}
use smews.Memory.Chain.{span, Holds}
use smews.Handlers.{OutputHandler, general_ip, ref_ack, gpip_get_output_handler}
use smews.Service.{Sizes, GeneratorService, header_none}
use smews.Connections.{Connection}
use smews.Connections.Samples.{client}
use smews.Connections.Ring.Laws.{IsRing}
use smews.Connections.Store.{Store}
use smews.Send.Packet.{CurrOutput}
use smews.Send.Select.{able_to_send}
use smews.GpIp.{receive_gpip, send_gpip, wants_to_send}
use smews.GpIp.Output.{packet_conn, sent_packet}
use smews.GpIp.Exchange.{send_gpip-receive_gpip}

abbrev ping : OutputHandler
ping = record ref_ack { addr = 12; handler_data = general_ip 1 }

abbrev cells : Cells
cells x = if x == 0 then record { size = 20; to_next = 20 } else record { size = 0; to_next = 0 }

abbrev sizes : Sizes
sizes = record {
  output_buffer_size = 16;
  context_size = 12;
  in_flight_size = 20;
  service_size = 24;
  connection_size = 40;
}

abbrev service : GeneratorService
service = record {
  curr_outseqno = 0;
  in_flight_infos = [];
  service_header = header_none;
  is_persistent = true;
}

abbrev store : Store
store = record {
  ring = record { all_connections = none; next = λ x. 0; prev = λ x. 0; conn = λ x. client };
  heap = record { cells = cells; first_free = 0 };
  services = λ x. service;
}

abbrev out : CurrOutput
out = record {
  buffer = [];
  checksum = 0;
  content_length = 0;
  max_bytes = 0;
  service_header = header_none;
}

store-Holds : Holds 20 store.heap (span 0 20 ∷ [])
store-Holds = omega arith

abbrev asked : Connection
asked = wants_to_send 1 (packet_conn ping 1 64 client)

send_gpip-receive_gpip_example :
    (s' s'' : Store) × (receive_gpip 21 sizes (ping ∷ []) (λ h c. 1) 1 64 client store ≡ some s')
    × IsRing s'.ring (0 ∷ [])
    × (able_to_send (s'.ring.conn 0) ≡ true)
    × (send_gpip 21 sizes 5 7 (some 30) out (λ c. 8 ∷ 0 ∷ []) ping 0 s'
        ≡ some (sent_packet 16 7 (some 30) out (8 ∷ 0 ∷ []) ping asked, s''))
    × IsRing s''.ring []
    × Holds 20 s''.heap (span 0 20 ∷ [])
unfolding gpip_get_output_handler
send_gpip-receive_gpip_example =
    send_gpip-receive_gpip 20 21 10 0 sizes (ping ∷ []) (λ h c. 1) 1 64 client store
      (span 0 20 ∷ []) (span 10 10 ∷ []) [] ping 5 7 (some 30) out (λ c. 8 ∷ 0 ∷ []) store-Holds
      (omega arith) (omega arith) (omega arith) (omega arith) (omega arith) refl refl tt refl refl
