-- ===== src/LinkCache.antt =====
-- core/link_layer_cache.c, built for IPv4: addresses and link-layer addresses in a fixed table.
-- The time of a call, `NOW`, is an argument.
pub mod Laws
mod Tests
use smews.Base.{
  ℕ, zero, suc, ◌+◌, Bool, true, false, ◌||◌, Option, none, some, List, [], ◌∷◌, ltb, ◌==◌,
  if◌then◌else◌, get_or, set, replicate,
}

-- `LinkLayerEntry`; an IPv4 address is the number `UI32(ip)`.
pub record LinkLayerEntry : Type 0 where
  pub ip : ℕ
  pub timestamp : ℕ
  pub link_layer : List ℕ

abbrev pub unused : LinkLayerEntry
unused = record { ip = 0; timestamp = 0; link_layer = [] }

abbrev pub Table : Type 0
Table = List LinkLayerEntry

-- The loop of `add_link_layer_address` from entry `i` on: the entry where it stops, or the one with
-- the least timestamp if it runs to the end.
unfoldable pub scan : ℕ → ℕ → ℕ → ℕ → Table → Bool × ℕ
scan ip i min_time min_time_idx [] = (false, min_time_idx)
scan ip i min_time min_time_idx (e ∷ es) =
    let older = ltb e.timestamp min_time in
    let rest =
      scan ip (i + 1) (if older then e.timestamp else min_time) (if older then i else min_time_idx)
        es in
    if e.ip == ip || e.ip == 0 then (true, i) else rest

-- `memcpy` of the link-layer address, `NOW`, and the address if the entry was not used
abbrev pub refresh : ℕ → List ℕ → ℕ → LinkLayerEntry → LinkLayerEntry
refresh ip link_layer now e = record {
  ip = if e.ip == 0 then ip else e.ip;
  timestamp = now;
  link_layer = link_layer;
}

-- the oldest entry replaced, its timestamp kept
abbrev pub replace : ℕ → List ℕ → LinkLayerEntry → LinkLayerEntry
replace ip link_layer e = record e { ip = ip; link_layer = link_layer }

abbrev pub update : Bool × ℕ → ℕ → List ℕ → ℕ → Table → Table
update (true, i) ip link_layer now t = set t i (refresh ip link_layer now (get_or t i unused))
update (false, i) ip link_layer now t = set t i (replace ip link_layer (get_or t i unused))

unfoldable pub add_link_layer_address : ℕ → List ℕ → ℕ → Table → Table
unfolding scan
add_link_layer_address ip link_layer now t =
    update (scan ip 0 (get_or t 0 unused).timestamp 0 t) ip link_layer now t

-- `none` is the result 0.
unfoldable pub get_link_layer_address : ℕ → Table → Option (List ℕ)
get_link_layer_address ip [] = none
get_link_layer_address ip (e ∷ es) =
    if e.ip == ip then some e.link_layer else get_link_layer_address ip es
