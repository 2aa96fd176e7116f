-- ===== src/Receive/Request/Finish/Get.antt =====
-- A whole GET request in one segment.
use smews.Base.{ℕ, true, false, none, some, List}
use smews.Memory.{Allocator}
use smews.Handlers.{OutputHandler}
use smews.Connections.{Connection, ParsingState, parsing_out, parsing_cmd}
use smews.Receive.Tree.Ternary.{Ternary}
use smews.Receive.Request.{Site, Parse}
use smews.Receive.Request.Finish.{no_arg, final_outseqno}
use smews.Receive.Request.Finish.Command.{HasTrees}

-- a connection that is about to answer with the handler `h`
abbrev pub answering : Site → ℕ → OutputHandler → Connection → Connection
answering site inack h c = record c {
  output_handler = some h;
  http = record c.http {
    args = none;
    arg_ref_index = 128;
    blob = site.blob_http_rqt;
    parsing_state = parsing_out;
    ready_to_send = true;
    next_outseqno = inack;
    final_outseqno = final_outseqno inack h.handler_data;
    comet_send_ack = h.handler_comet;
    comet_passive = false;
    comet_streaming = false;
  };
}

module _ (site : Site) (fuel inack : ℕ) (commands urls : Ternary)
    (trees : HasTrees site commands urls) (c : Connection) (bytes : ℕ → ℕ) (heap : Allocator) where
  abbrev fresh : Parse
  fresh = record {
    http = record c.http {
      args = none;
      arg_ref_index = 128;
      blob = site.blob_http_rqt;
      parsing_state = parsing_cmd;
      ready_to_send = true;
    };
    output_handler = none;
    blob = site.blob_http_rqt;
    arg_ref = no_arg;
    bytes = bytes;
    heap = heap;
  }

  -- the state behind the space, or in an unknown URL
  abbrev behind_url : ParsingState → OutputHandler → List ℕ → Parse
  behind_url state h w = record fresh {
    blob = w;
    output_handler = some h;
    http = record fresh.http { parsing_state = state };
  }
