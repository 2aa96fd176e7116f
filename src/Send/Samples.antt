-- ===== src/Send/Samples.antt =====
-- An output without contents, for the tests of several modules.
use smews.Base.{[]}
use smews.Service.{header_none}
use smews.Send.Packet.{CurrOutput}

abbrev pub idle : CurrOutput
idle = record {
  buffer = [];
  checksum = 0;
  content_length = 0;
  max_bytes = 0;
  service_header = header_none;
}
