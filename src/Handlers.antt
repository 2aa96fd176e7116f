-- ===== src/Handlers.antt =====
-- core/handlers.h and core/handlers.c: what a connection is served with. A handler is compared by
-- its address; constant arrays are lists, and a pointer into one is the rest of the list.
use smews.Base.{ℕ, ◌+◌, Bool, true, false, Option, none, some, List, [], ◌∷◌, ◌==◌, if◌then◌else◌}

abbrev pub tcp_fin : ℕ
tcp_fin = 0x01

abbrev pub tcp_syn : ℕ
tcp_syn = 0x02

abbrev pub tcp_rst : ℕ
tcp_rst = 0x04

abbrev pub tcp_psh : ℕ
tcp_psh = 0x08

abbrev pub tcp_ack : ℕ
tcp_ack = 0x10

-- `enum arg_type_e` and `struct arg_ref_t`
pub data ArgType : Type 0 where
  arg_str arg_ui8 arg_ui16 : ArgType

pub record ArgRef : Type 0 where
  pub arg_type : ArgType
  pub arg_size : ℕ
  pub arg_offset : ℕ

-- `enum prop_e`
pub data Persistence : Type 0 where
  prop_persistent prop_idempotent prop_volatile : Persistence

-- `enum handler_type_e` with the member of `union handler_data_u` that it selects. The functions of
-- a generator are known by its handler.
pub data HandlerData : Type 0 where
  -- length and flags
  control : ℕ → ℕ → HandlerData
  -- length, partial checksums and data
  file : ℕ → List ℕ → List ℕ → HandlerData
  generator : Persistence → HandlerData
  -- protocol number
  general_ip : ℕ → HandlerData

-- `struct output_handler_t`
pub record OutputHandler : Type 0 where
  pub addr : ℕ
  pub handler_comet : Bool
  pub handler_stream : Bool
  pub handler_data : HandlerData
  pub args_tree : List ℕ
  pub args_index : List ArgRef
  pub args_size : ℕ

-- The macro IS_GPIP_HANDLER, at a handler that is not NULL.
unfoldable pub is_gpip_data : HandlerData → Bool
is_gpip_data (general_ip protocol) = true
is_gpip_data _ = false

unfoldable pub is_gpip_handler : OutputHandler → Bool
unfolding is_gpip_data
is_gpip_handler h = is_gpip_data h.handler_data

unfoldable pub is_control_data : HandlerData → Bool
is_control_data (control length flags) = true
is_control_data _ = false

-- the macro GET_FLAGS
unfoldable pub get_flags : HandlerData → ℕ
get_flags (control length flags) = flags
get_flags _ = tcp_ack + tcp_psh

abbrev pub control_handler : ℕ → ℕ → ℕ → OutputHandler
control_handler addr length flags = record {
  addr = addr;
  handler_comet = false;
  handler_stream = false;
  handler_data = control length flags;
  args_tree = [];
  args_index = [];
  args_size = 0;
}

-- The four control packets. Their addresses are 1 to 4 here; 0 stands for no handler.
abbrev pub ref_synack : OutputHandler
ref_synack = control_handler 1 4 (tcp_syn + tcp_ack)

abbrev pub ref_ack : OutputHandler
ref_ack = control_handler 2 0 tcp_ack

abbrev pub ref_finack : OutputHandler
ref_finack = control_handler 3 0 (tcp_ack + tcp_fin)

abbrev pub ref_rst : OutputHandler
ref_rst = control_handler 4 0 (tcp_rst + tcp_ack)

-- `smews_gpip_get_output_handler`: the first handler of `resources_index` for an IP protocol; the
-- list ends where the array has NULL.
unfoldable pub gpip_get_output_handler : ℕ → List OutputHandler → Option OutputHandler
unfolding is_gpip_data
gpip_get_output_handler protocol [] = none
gpip_get_output_handler protocol (h ∷ hs) =
    let rest = gpip_get_output_handler protocol hs in
    elim h.handler_data [ general_ip p ↦ if p == protocol then some h else rest | _ ↦ rest ]
