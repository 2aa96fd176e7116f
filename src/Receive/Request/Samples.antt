-- ===== src/Receive/Request/Samples.antt =====
-- The site of the URLs /a and /b, for the tests of requests.
use smews.Base.{ℕ, refl, arith, none, some, List, [], ◌∷◌}
use smews.Memory.{Allocator}
use smews.Handlers.{OutputHandler, file, control_handler}
use smews.Connections.{Connection}
use smews.Connections.Samples.{client}
use smews.Receive.Tree.Ternary.{Ternary, leaf, node, encode}
use smews.Receive.Tree.Ternary.Walk.{Fits}
use smews.Receive.Tree.Ternary.Child.{IsBlob}
use smews.Receive.Request.{Site}
use smews.Receive.Request.Finish.Command.{HasTrees}

-- `GET `
abbrev pub commands : Ternary
commands =
    node 71 none leaf
      (node 69 none leaf (node 84 none leaf (node 32 (some 0) leaf leaf leaf) leaf) leaf) leaf

-- `/a` is resource 0 and `/b` is resource 1
abbrev pub urls : Ternary
urls = node 47 none leaf (node 98 (some 1) (node 97 (some 0) leaf leaf leaf) leaf leaf) leaf

abbrev pub page : ℕ → OutputHandler
page addr = record (control_handler addr 0 0) { handler_data = file 500 [] [] }

abbrev pub site : Site
site = record {
  resources_index = page 20 ∷ page 21 ∷ [];
  urls_tree = 47 ∷ 98 ∷ 129 ∷ 1 ∷ 97 ∷ 128 ∷ 0 ∷ [];
  blob_http_rqt = 71 ∷ 69 ∷ 84 ∷ 32 ∷ 128 ∷ 0 ∷ [];
  http_404_handler = page 22;
}

alone : Fits leaf leaf leaf
unfolding encode
alone = record { small = omega arith; balanced = refl; starts = tt }

pub commands-IsBlob : IsBlob commands
unfolding encode
commands-IsBlob = (
  omega arith,
  omega arith,
  record { small = omega arith; balanced = refl; starts = (omega arith, omega arith) },
  tt,
  (
    omega arith,
    omega arith,
    record { small = omega arith; balanced = refl; starts = (omega arith, omega arith) },
    tt,
    (
      omega arith,
      omega arith,
      record { small = omega arith; balanced = refl; starts = (omega arith, omega arith) },
      tt,
      (omega arith, omega arith, alone, tt, tt, tt),
      tt,
    ),
    tt,
  ),
  tt,
)

pub urls-IsBlob : IsBlob urls
unfolding encode
urls-IsBlob = (
  omega arith,
  omega arith,
  record { small = omega arith; balanced = refl; starts = (omega arith, omega arith) },
  tt,
  (
    omega arith,
    omega arith,
    record { small = omega arith; balanced = refl; starts = tt },
    (omega arith, omega arith, alone, tt, tt, tt),
    tt,
    tt,
  ),
  tt,
)

pub trees : HasTrees site commands urls
unfolding encode
trees = record {
  behind_commands = [];
  behind_urls = [];
  blob_http_rqt = refl;
  urls_tree = refl;
  commands_blob = commands-IsBlob;
  commands_open = (refl, tt, (refl, tt, (refl, tt, (refl, tt, tt, tt), tt), tt), tt);
  urls_blob = urls-IsBlob;
  urls_open = (refl, tt, (refl, (refl, tt, tt, tt), tt, tt), tt);
  some_url = refl;
}

abbrev pub heap : Allocator
heap = record { cells = λ x. record { size = 0; to_next = 0 }; first_free = 0 }

abbrev pub idle : Connection
idle = record client { output_handler = none }

abbrev pub zeros : ℕ → ℕ
zeros x = 0

abbrev pub get : List ℕ
get = 71 ∷ 69 ∷ 84 ∷ 32 ∷ []
