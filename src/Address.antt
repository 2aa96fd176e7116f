-- ===== src/Address.antt =====
-- core/connections.c, built for IPv6: the compressed form of an address, where one run of zero
-- bytes is left out and its place is kept in `indexes`. An address is a list of 16 bytes.
pub mod RoundTrip
mod Tests
use smews.Base.{
  ℕ, zero, suc, get_or, ◌+◌, ◌-◌, ◌*◌, ◌/◌, ◌%◌, ◌^◌, bit_or, Bool, true, false, List, [], ◌∷◌,
  ◌++◌, ltb, ◌==◌, if◌then◌else◌, u8, take, drop, replicate,
}

-- the variables of the loop of `compress_ip`
pub record Runs : Type 0 where
  pub curr_index : ℕ
  pub max_index : ℕ
  pub curr_nb : ℕ
  pub max_nb : ℕ

abbrev pub no_runs : Runs
no_runs = record { curr_index = 0; max_index = 0; curr_nb = 0; max_nb = 0 }

-- one turn of the loop, at the byte `b` of index `i`
unfoldable pub count : ℕ → ℕ → Runs → Runs
count i b r =
    if b == 0
    then record r {
      curr_index = if r.curr_nb == 0 then i else r.curr_index;
      curr_nb = suc r.curr_nb;
    }
    else if ltb r.max_nb r.curr_nb
    then record r { max_nb = r.curr_nb; max_index = r.curr_index; curr_nb = 0 }
    else r

unfoldable pub count_from : ℕ → List ℕ → Runs → Runs
unfolding count
count_from i [] r = r
count_from i (b ∷ bs) r = count_from (suc i) bs (count i b r)

-- the compressed address, its 16 bytes written in full, and `indexes`
unfoldable pub compress_ip : List ℕ → List ℕ × ℕ
unfolding count_from
compress_ip full =
    let r = count_from 0 full no_runs in
    (
      take r.max_index full ++ (drop (r.max_index + r.max_nb) full ++ replicate r.max_nb 0),
      bit_or (u8 (r.max_index * 2 ^ 4)) r.max_nb,
    )

unfoldable pub decompress_ip : List ℕ → ℕ → List ℕ
decompress_ip comp indexes =
    let start_index = indexes / 2 ^ 4 in
    let zeros_nb = indexes % 2 ^ 4 in
    take start_index comp
    ++ (replicate zeros_nb 0 ++ take (16 - (start_index + zeros_nb)) (drop start_index comp))

-- the first `n` bytes are the same
unfoldable pub same_bytes : ℕ → List ℕ → List ℕ → Bool
same_bytes zero xs ys = true
same_bytes (suc n) (x ∷ xs) (y ∷ ys) = if x == y then same_bytes n xs ys else false
same_bytes (suc n) _ _ = true

-- `ipcmp` on compressed addresses with `indexes` in front
unfoldable pub ipcmp : List ℕ → List ℕ → Bool
unfolding same_bytes
ipcmp source check = same_bytes (17 - get_or source 0 0 % 2 ^ 4) source check
