-- ===== src/Icmp/Tests.antt =====
-- An echo request with three bytes of data.
