-- ===== src/Receive/Ip/Tests.antt =====
-- A packet of 40 bytes between two nodes, and the theorem on it.
use smews.Base.{ℕ, ◌≡◌, arith, none, some, List, [], ◌∷◌, ◌++◌}
use smews.Send.Packet.{ip_header}
use smews.Receive.Ip.{receive_ip}
use smews.Receive.Ip.Laws.{receive_ip-ip_header}

receive_ip-ip_header_example :
    (bytes : List ℕ) × (ip_header none 40 0xc0a80001 0xc0a80002 ≡ some bytes)
    × (receive_ip (bytes ++ 7 ∷ [])
        ≡ some (record { packet_length = 20; protocol = 6; source_ip = 0xc0a80001 }, 7 ∷ []))
receive_ip-ip_header_example =
    receive_ip-ip_header 40 0xc0a80001 0xc0a80002 (7 ∷ []) (omega arith) (omega arith) (omega arith)
