-- ===== src/Receive/Request/Tests.antt =====
-- Requests of a small site, and the theorems at them.
use smews.Base.{
  ℕ, ◌+◌, ◌-◌, ◌≡◌, refl, arith, false, some, [], ◌∷◌, ◌==◌, if◌then◌else◌, inr, get_or, map, u8,
  length,
}
use smews.Handlers.{OutputHandler, arg_str, arg_ui16, ref_ack}
use smews.Connections.{Connection, parsing_cmd, parsing_url}
use smews.Connections.Samples.{http}
use smews.Service.{header_none}
use smews.Send.Packet.{CurrOutput}
use smews.Send.Segment.{smews_send_packet}
use smews.Send.Select.{acknowledge_only, restore_handler}
use smews.Generators.{out_uint}
use smews.Receive.Request.Samples.{page, site, heap, idle, zeros}
use smews.Receive.Request.{Parse, is_404, parsed, parse_chars}
use smews.Receive.Request.Args.{
  put_values, put_values-outside, put_values-str, put_values-out_uint, ui16_at,
}
use smews.Receive.Request.Value.{value_end, parse_chars-value}
use smews.Receive.Request.Finish.{finish}
use smews.Receive.Request.Finish.Lost.{ended, request-no_value}

-- `/a` in a segment of its own, behind `GET ` whose acknowledgement waits
abbrev waiting : Connection
waiting = record idle {
  output_handler = some ref_ack;
  http = record http { parsing_state = parsing_cmd; blob = 128 ∷ 0 ∷ [] };
}

-- the arguments `s`, a string of 4 bytes, and `n`, a number of 16 bits
abbrev form : OutputHandler
form = record (page 23) {
  args_tree = 115 ∷ 128 ∷ 4 ∷ 110 ∷ 129 ∷ 0 ∷ [];
  args_index =
      record { arg_type = arg_str; arg_size = 4; arg_offset = 0 }
      ∷ record { arg_type = arg_ui16; arg_size = 2; arg_offset = 4 }
      ∷ [];
  args_size = 6;
}

-- behind `/f?n=`
abbrev in_value : Parse
in_value = record {
  http = record http {
    parsing_state = parsing_url;
    ready_to_send = false;
    args = some 10;
    arg_ref_index = 1;
    curr_arg = 44;
  };
  output_handler = some form;
  blob = 129 ∷ 0 ∷ [];
  arg_ref = record { arg_type = arg_ui16; arg_size = 2; arg_offset = 4 };
  bytes = zeros;
  heap = heap;
}

parse_chars-value_example :
    parse_chars site 9 (52 ∷ 50 ∷ 32 ∷ 72 ∷ []) in_value
    ≡ some (
        parsed
          (value_end site 9 in_value (0 ∷ []) (put_values arg_ui16 2 44 (52 ∷ 50 ∷ []) zeros))
          (72 ∷ []))
unfolding is_404
parse_chars-value_example =
    parse_chars-value site 9 in_value refl refl refl 52 (50 ∷ []) (72 ∷ []) 1 (0 ∷ []) refl refl
      refl (refl, tt)

abbrev sent_nothing : CurrOutput
sent_nothing = record {
  buffer = [];
  checksum = 0;
  content_length = 0;
  max_bytes = 0;
  service_header = header_none;
}

request-no_value_example :
    (q : Parse) × (parse_chars site 9 (32 ∷ []) in_value ≡ some (parsed q []))
    × (finish site 700 q idle ≡ ended site 700 form (record idle { http = in_value.http }))
    × (acknowledge_only (ended site 700 form (record idle { http = in_value.http })) ≡ (
      some form,
      record (ended site 700 form (record idle { http = in_value.http })) {
        output_handler = some ref_ack;
      },
    ))
    × (restore_handler
          (some form)
          (smews_send_packet 12 9 0 sent_nothing ref_ack
            (record (ended site 700 form (record idle { http = in_value.http })) {
              output_handler = some ref_ack;
            })).1
        ≡ record (ended site 700 form (record idle { http = in_value.http })) {
          http = record (ended site 700 form (record idle { http = in_value.http })).http {
            transmission_time = 9;
          };
        })
unfolding is_404
request-no_value_example =
    request-no_value site 9 700 in_value idle form 1 (0 ∷ []) [] 12 9 0 sent_nothing refl
      (omega arith) (omega arith) refl refl refl refl refl

put_values-outside_example : put_values arg_str 4 40 (1 ∷ 2 ∷ 3 ∷ 4 ∷ 5 ∷ []) zeros 44 ≡ 0
put_values-outside_example =
    put_values-outside arg_str 4 40 (1 ∷ 2 ∷ 3 ∷ 4 ∷ 5 ∷ []) zeros 44 (omega arith, omega arith)
      (omega arith) (inr (omega arith))

abbrev empty_string : ℕ → ℕ
empty_string x = if x == 43 then 3 else 7

put_values-str_example :
    (put_values arg_str 4 40 (65 ∷ 66 ∷ []) empty_string (40 + 1)
      ≡ get_or (map u8 (65 ∷ 66 ∷ [])) 1 (empty_string (40 + 1)))
    × (put_values arg_str 4 40 (65 ∷ 66 ∷ []) empty_string (40 + 4 - 1)
        ≡ 4 - 1 - length {A = ℕ} (65 ∷ 66 ∷ []))
put_values-str_example =
    put_values-str 4 40 (omega arith) (omega arith) (65 ∷ 66 ∷ []) empty_string 1 refl (omega arith)

put_values-out_uint_example : ui16_at (put_values arg_ui16 2 44 (out_uint 300) zeros) 44 ≡ 300
put_values-out_uint_example = put_values-out_uint 2 44 300 zeros refl (omega arith)
