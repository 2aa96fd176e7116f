-- ===== src/Receive/Commit/Tests.antt =====
-- A first SYN at a node without connections, and the theorem on it.
use smews.Base.{◌≡◌, refl, true, none, some, [], ◌==◌, if◌then◌else◌}
use smews.Memory.{Cells, mem_alloc}
use smews.Handlers.{ref_synack}
use smews.Service.{Sizes, GeneratorService, header_none}
use smews.Connections.{Connection, tcp_syn_rcvd}
use smews.Connections.Samples.{http, client}
use smews.Connections.Store.{Store}
use smews.Receive.Tcp.{nothing_deferred}
use smews.Receive.Commit.{RstConnection, TmpConnection, commit}
use smews.Receive.Commit.Laws.{IsNew, commit-IsNew}

abbrev cells : Cells
cells x = if x == 0 then record { size = 20; to_next = 20 } else record { size = 0; to_next = 0 }

abbrev sizes : Sizes
sizes = record {
  output_buffer_size = 16;
  context_size = 12;
  in_flight_size = 20;
  service_size = 24;
  connection_size = 40;
}

abbrev service : GeneratorService
service = record {
  curr_outseqno = 0;
  in_flight_infos = [];
  service_header = header_none;
  is_persistent = true;
}

abbrev store : Store
store = record {
  ring = record { all_connections = none; next = λ x. 0; prev = λ x. 0; conn = λ x. client };
  heap = record { cells = cells; first_free = 0 };
  services = λ x. service;
}

abbrev opened : Connection
opened = record client {
  output_handler = some ref_synack;
  http = record http { tcp_state = tcp_syn_rcvd };
}

abbrev no_reset : RstConnection
no_reset = record { ip_addr = 0; current_inseqno = 0; next_outseqno = 0; port = 0 }

-- with links that are not set
abbrev tmp : TmpConnection
tmp = record { connection = opened; next = 77; prev = 5 }

commit-IsNew_example :
    (s' : Store) × (commit 21 sizes (λ a. (none, 0)) nothing_deferred 0 none tmp store no_reset
      ≡ some (s', no_reset))
    × IsNew opened 0 [] store s'
unfolding mem_alloc
commit-IsNew_example =
    commit-IsNew 21 sizes (λ a. (none, 0)) nothing_deferred 0 tmp store no_reset 0 _ [] refl refl
      refl refl tt
