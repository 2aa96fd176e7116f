-- ===== src/Receive/Request.antt =====
-- How `smews_receive` of core/input.c reads a GET request and its arguments, character by character. Bytes
-- of the arguments are kept by address, 4 times that of their block in the allocator; a 16-bit argument
-- has its low byte first. `fault` stands for the use of a NULL pointer.
pub mod Args
pub mod Walk
pub mod Value
pub mod Url
pub mod Finish
pub mod Samples
mod Tests
use smews.Base.{
  ℕ, zero, suc, ◌+◌, ◌-◌, ◌*◌, ◌/◌, ◌%◌, ◌^◌, Bool, true, false, not, ◌&&◌, ◌||◌, Option, none,
  some, List, [], ◌∷◌, ltb, leb, ◌==◌, if◌then◌else◌, u8, u16, get_or, drop, length,
}
use smews.Memory.{Allocator, mem_alloc}
use smews.Handlers.{OutputHandler, ArgRef, ArgType, arg_str, arg_ui8, arg_ui16}
use smews.Connections.{
  HttpConnection, ParsingState, parsing_out, parsing_cmd, parsing_url, parsing_end,
}
use smews.Connections.Ring.{put}
use smews.Generators.{arg_ui16_char}
use smews.Receive.Tree.{match_char, read}

-- the tables that the build generates, and the handler of error 404
pub record Site : Type 0 where
  pub resources_index : List OutputHandler
  pub urls_tree : List ℕ
  pub blob_http_rqt : List ℕ
  pub http_404_handler : OutputHandler

-- the variables of the loop over the characters, and what it changes
pub record Parse : Type 0 where
  pub http : HttpConnection
  pub output_handler : Option OutputHandler
  pub blob : List ℕ
  pub arg_ref : ArgRef
  pub bytes : ℕ → ℕ
  pub heap : Allocator

-- how the work on one character goes on: with the next one, behind the loop, or with the tree
pub data Next : Type 0 where
  go_on : Parse → Next
  stop : Parse → Next
  fall : Parse → Next
  fault : Next

abbrev pub nth {ℓ} : {A : Type ℓ} → List A → ℕ → Option A
nth [] i = none
nth (x ∷ xs) zero = some x
nth (x ∷ xs) (suc i) = nth xs i

abbrev pub is_cmd : ParsingState → Bool
is_cmd parsing_cmd = true
is_cmd _ = false

unfoldable pub is_404 : Site → Option OutputHandler → Bool
is_404 site none = false
is_404 site (some h) = h.addr == site.http_404_handler.addr

-- `if(!output_handler)` the resource of the byte
unfoldable pub select_resource : Site → ℕ → Option OutputHandler → Option OutputHandler
select_resource site curr none = nth site.resources_index (curr - 128)
select_resource site curr (some h) = some h

abbrev pub put_byte : (ℕ → ℕ) → ℕ → ℕ → ℕ → ℕ
put_byte bytes a v = put bytes a (u8 v)

unfoldable pub clear_bytes : ℕ → ℕ → (ℕ → ℕ) → ℕ → ℕ
clear_bytes zero a bytes = bytes
clear_bytes (suc n) a bytes = put_byte (clear_bytes n (suc a) bytes) a 0

-- a `?` behind a URL: the arguments get a block of zeros, or the request fails
unfoldable pub alloc_args : Site → ℕ → OutputHandler → Parse → Option Next
unfolding clear_bytes
alloc_args site fuel h p = elim (mem_alloc fuel h.args_size p.heap) [
  | none ↦ none
  | some (none, heap) ↦ some (
      stop (record p {
        heap = heap;
        blob = h.args_tree;
        http = record p.http { args = none };
        output_handler = some site.http_404_handler;
      }))
  | some (some a, heap) ↦ some (
      go_on (record p {
        heap = heap;
        blob = h.args_tree;
        http = record p.http { args = some a };
        bytes = clear_bytes h.args_size (4 * a) p.bytes;
      }))
]

unfoldable pub question : Site → ℕ → ℕ → Parse → Option Next
unfolding select_resource alloc_args
question site fuel curr p = elim (select_resource site curr p.output_handler) [
  | none ↦ some fault
  | some h ↦
      (let p' : Parse = record p {
        output_handler = some h;
        http = record p.http { ready_to_send = false };
      } in
        if h.args_size == 0 then some (fall p') else alloc_args site fuel h p')
]

-- A `=` behind the name of an argument; a string has its room left in its last byte.
abbrev pub is_str : ArgType → Bool
is_str arg_str = true
is_str _ = false

unfoldable pub equals : ℕ → ℕ → ArgRef → Parse → Parse
equals args curr r p =
    let a = 4 * args + r.arg_offset in
    record p {
      http = record p.http { arg_ref_index = u8 (curr - 128); curr_arg = a };
      arg_ref = r;
      bytes =
          if is_str r.arg_type
          then put_byte p.bytes (a + r.arg_size - 1) (r.arg_size - 1)
          else p.bytes;
    }

unfoldable pub name_end : ℕ → Parse → Next
unfolding equals
name_end curr p = elim p.output_handler [
  | none ↦ fault
  | some h ↦ elim (nth h.args_index (curr - 128)) [
    | none ↦ fault
    | some r ↦ elim p.http.args [ none ↦ fault | some args ↦ go_on (equals args curr r p) ]
  ]
]

abbrev pub has_args : HttpConnection → Bool
has_args h = elim h.args [ none ↦ false | some a ↦ true ]

unfoldable pub next_name : Option OutputHandler → Parse → Next
next_name none p = fault
next_name (some h) p = fall (record p { blob = h.args_tree })

-- at the byte `curr` of a resource or of the name of an argument
unfoldable pub at_resource : Site → ℕ → ℕ → ℕ → Parse → Option Next
unfolding select_resource question name_end next_name
at_resource site fuel curr c p =
    if is_cmd p.http.parsing_state
    then some (
        fall (record p {
          http = record p.http { parsing_state = parsing_url };
          blob = site.urls_tree;
        }))
    else if c == 32
    then some (
        stop (record p {
          output_handler = select_resource site curr p.output_handler;
          http = record p.http { parsing_state = parsing_end };
        }))
    else if c == 63
    then question site fuel curr p
    else if (c == 61) && has_args p.http
    then some (name_end curr p)
    else if c == 38
    then some (next_name p.output_handler p)
    else some (fall (record p { blob = drop 1 p.blob }))

-- a character of a value
unfoldable pub put_str : ℕ → ℕ → ℕ → (ℕ → ℕ) → ℕ → ℕ
put_str a size c bytes =
    let left = bytes (a + size - 1) in
    if left == 0
    then bytes
    else put_byte (put_byte bytes (a + size - (left + 1)) c) (a + size - 1) (left - 1)

unfoldable pub put_ui8 : ℕ → ℕ → (ℕ → ℕ) → ℕ → ℕ
put_ui8 a c bytes = put_byte bytes a (u8 (bytes a * 10) + 2 ^ 8 + c - 48)

unfoldable pub put_ui16 : ℕ → ℕ → (ℕ → ℕ) → ℕ → ℕ
unfolding arg_ui16_char
put_ui16 a c bytes =
    let v = arg_ui16_char (bytes (a + 1) * 2 ^ 8 + bytes a) c in
    put_byte (put_byte bytes a v) (a + 1) (v / 2 ^ 8)

-- by the type and the size of the argument at the address `a`
unfoldable pub put_value : ArgType → ℕ → ℕ → ℕ → (ℕ → ℕ) → ℕ → ℕ
unfolding put_str put_ui8 put_ui16
put_value arg_str size a c bytes = put_str a size c bytes
put_value arg_ui8 size a c bytes = put_ui8 a c bytes
put_value arg_ui16 size a c bytes = put_ui16 a c bytes

unfoldable pub next_arg : Option OutputHandler → Parse → Next
next_arg none p = fault
next_arg (some h) p =
    go_on (record p { http = record p.http { arg_ref_index = 128 }; blob = h.args_tree })

unfoldable pub value_char : ℕ → Parse → Next
unfolding next_arg put_value
value_char c p =
    if c == 38
    then next_arg p.output_handler p
    else if c == 32
    then stop
        (record p { http = record p.http { ready_to_send = true; parsing_state = parsing_end } })
    else go_on (record p {
      bytes = put_value p.arg_ref.arg_type p.arg_ref.arg_size p.http.curr_arg c p.bytes;
    })

-- a character of a word of the tree
unfoldable pub tree_char : Site → ℕ → Parse → Option Next
unfolding match_char
tree_char site c p = elim (match_char (suc (length p.blob)) c p.blob) [
  | none ↦ none
  | some none ↦ some (go_on (record p { output_handler = some site.http_404_handler }))
  | some (some blob) ↦ some (go_on (record p { blob = blob }))
]

unfoldable pub other_char : Site → ℕ → Parse → Option Next
unfolding value_char tree_char
other_char site c p =
    if p.http.arg_ref_index == 128 then tree_char site c p else some (value_char c p)

unfoldable pub behind_resource : Site → ℕ → Option Next → Option Next
unfolding other_char
behind_resource site c none = none
behind_resource site c (some (go_on p)) = some (go_on p)
behind_resource site c (some (stop p)) = some (stop p)
behind_resource site c (some (fall p)) = other_char site c p
behind_resource site c (some fault) = some fault

unfoldable pub parse_char : Site → ℕ → ℕ → Parse → Option Next
unfolding behind_resource at_resource other_char
parse_char site fuel c p =
    if leb 128 (read p.blob 0)
    then behind_resource site c (at_resource site fuel (read p.blob 0) c p)
    else other_char site c p

-- what the loop leaves: its variables and the characters that it did not read
pub data Parsed : Type 0 where
  parsed : Parse → List ℕ → Parsed
  crashed : Parsed

unfoldable pub parse_chars : Site → ℕ → List ℕ → Parse → Option Parsed
unfolding parse_char is_404
parse_chars site fuel [] p = some (parsed p [])
parse_chars site fuel (c ∷ cs) p =
    if is_404 site p.output_handler
    then some (parsed p (c ∷ cs))
    else elim (parse_char site fuel c p) [
      | none ↦ none
      | some fault ↦ some crashed
      | some (stop p') ↦ some (parsed p' cs)
      | some (fall p') ↦ parse_chars site fuel cs p'
      | some (go_on p') ↦ parse_chars site fuel cs p'
    ]
