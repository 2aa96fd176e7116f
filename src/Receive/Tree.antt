-- ===== src/Receive/Tree.antt =====
-- The tree of known requests and URLs that `smews_receive` of core/input.c walks, one character of
-- the request at a time. `blob` is what is left of the tree behind the pointer; reading behind the
-- end of the tree gives 0 here.
pub mod Laws
pub mod Ternary
mod Tests
use smews.Base.{
  ℕ, zero, suc, ◌+◌, ◌-◌, ◌/◌, ◌%◌, ◌^◌, Bool, true, false, not, ◌&&◌, ◌||◌, Option, none, some,
  List, [], ◌∷◌, ltb, leb, ◌==◌, if◌then◌else◌, u8, get_or, drop,
}

-- bit `k` of a byte of the tree
unfoldable pub bit : ℕ → ℕ → Bool
bit k b = not (b / 2 ^ k % 2 == 0)

abbrev pub one_if : Bool → ℕ
one_if b = if b then 1 else 0

abbrev pub read : List ℕ → ℕ → ℕ
read blob i = get_or blob i 0

-- how a turn of the loop ends
pub data Turn : Type 0 where
  matched : List ℕ → Turn
  not_found : Turn
  look_at : List ℕ → Turn

-- `blob` is at the byte `next` behind the character; a node's byte is below 32 and has a bit for each of
-- its three subtrees.
unfoldable pub offset_inf : ℕ → ℕ
unfolding bit
offset_inf next =
    if ltb next 32 then one_if (bit 2 next) + one_if (bit 1 next) + one_if (bit 0 next) else 0

unfoldable pub offset_eq : ℕ → List ℕ → ℕ
unfolding bit offset_inf
offset_eq next blob =
    if ltb next 32 then u8 (offset_inf next + (if bit 1 next then read blob 1 else 0)) else 0

unfoldable pub offset_sup : ℕ → List ℕ → ℕ
unfolding bit offset_inf offset_eq
offset_sup next blob = u8 (
    offset_eq next blob + (if bit 0 next || bit 1 next then read blob (offset_inf next - 1) else 0))

unfoldable pub branch : ℕ → ℕ → ℕ → List ℕ → Turn
unfolding bit offset_inf offset_eq offset_sup
branch c curr next blob =
    if c == curr
    then (if ltb next 32
        then (if bit 1 next then matched (drop (offset_eq next blob) blob) else not_found)
        else matched blob)
    else if ltb c curr
    then (if ltb next 32 && bit 0 next then look_at (drop (offset_inf next) blob) else not_found)
    else (if ltb next 32 && bit 2 next
        then look_at (drop (offset_sup next blob) blob)
        else not_found)

-- A resource's byte, of 128 or more, is passed over when the character differs.
abbrev pub past_resource : ℕ → ℕ → List ℕ → List ℕ
past_resource c curr blob = if not (c == curr) && leb 128 (read blob 0) then drop 1 blob else blob

unfoldable pub turn : ℕ → List ℕ → Turn
unfolding branch
turn c blob =
    let behind = past_resource c (read blob 0) (drop 1 blob) in
    branch c (read blob 0) (read behind 0) behind

-- The loop; `some none` is the handler of error 404, and `none` is out of fuel.
unfoldable pub match_char : ℕ → ℕ → List ℕ → Option (Option (List ℕ))
unfolding turn
match_char zero c blob = none
match_char (suc fuel) c blob = elim (turn c blob) [
  | matched blob' ↦ some (some blob')
  | not_found ↦ some none
  | look_at blob' ↦ match_char fuel c blob'
]
