-- ===== src/LinkCache/Laws.antt =====
-- Learning and looking up addresses.
use smews.Base.{
  ℕ, zero, suc, ◌+◌, ◌<◌, ◌≤◌, ◌≡◌, ◌≢◌, ◌⊎◌, inl, inr, refl, sym, ◌∙◌, arith, Bool, true, false,
  ◌||◌, none, some, List, [], ◌∷◌, ltb, ◌==◌, if◌then◌else◌, get_or, set, length, Bool-cases,
  ltb→lt, not_ltb→le,
}
use native.Mathlib.Nat.{le_refl}
use smews.LinkCache.{
  LinkLayerEntry, unused, Table, scan, refresh, replace, add_link_layer_address,
  get_link_layer_address,
}

-- Some entry is not used or holds `ip`.
abbrev pub has_room : ℕ → Table → Bool
has_room ip [] = false
has_room ip (e ∷ es) = (e.ip == ip || e.ip == 0) || has_room ip es

scan-hit : (ip i mt mi : ℕ) (t : Table) → (scan ip i mt mi t).0 ≡ has_room ip t
unfolding scan
scan-hit ip i mt mi [] = refl
scan-hit ip i mt mi (e ∷ es) = ground (
  arith,
  scan-hit ip (i + 1) (if ltb e.timestamp mt then e.timestamp else mt)
      (if ltb e.timestamp mt then i else mi) es,
)

-- the first of the entries with the least timestamp, from entry `i` on
abbrev pub oldest : ℕ → ℕ → ℕ → Table → ℕ
oldest i mt mi [] = mi
oldest i mt mi (e ∷ es) =
    oldest (i + 1) (if ltb e.timestamp mt then e.timestamp else mt)
      (if ltb e.timestamp mt then i else mi) es

scan-oldest :
    (ip i mt mi : ℕ) (t : Table)
    → has_room ip t ≡ false
    → scan ip i mt mi t ≡ (false, oldest i mt mi t)
unfolding scan
scan-oldest ip i mt mi [] h = refl
scan-oldest ip i mt mi (e ∷ es) h = ground (
  arith,
  scan-oldest ip (i + 1) (if ltb e.timestamp mt then e.timestamp else mt)
      (if ltb e.timestamp mt then i else mi) es,
)

-- where the loop stops in the entries `t`, which start at entry `i`
record Stops (ip i : ℕ) (t : Table) (r : Bool × ℕ) : Type 0 where
  hit : r.0 ≡ true
  slot : ℕ
  at : r.1 ≡ i + slot
  within : slot < length t
  fits : ((get_or t slot unused).ip ≡ ip) ⊎ ((get_or t slot unused).ip ≡ 0)
  first :
      (v : LinkLayerEntry)
      → v.ip ≡ ip
      → get_link_layer_address ip (set t slot v) ≡ some v.link_layer

scan-Stops : (ip i mt mi : ℕ) (t : Table) → has_room ip t ≡ true → Stops ip i t (scan ip i mt mi t)
unfolding scan get_link_layer_address
scan-Stops ip i mt mi [] h = cc
scan-Stops ip i mt mi (e ∷ es) h = elim (Bool-cases (e.ip == ip || e.ip == 0)) [
  | inl stop ↦ rw stop (record {
    hit = refl;
    slot = 0;
    at = omega arith;
    within = omega arith;
    fits = ground arith;
    first = λ v q. ground arith;
  })
  | inr on ↦
      let rest =
        scan-Stops ip (i + 1) (if ltb e.timestamp mt then e.timestamp else mt)
          (if ltb e.timestamp mt then i else mi) es (rw on at h) in
      rw on (record {
        hit = rest.hit;
        slot = suc rest.slot;
        at = omega (arith, rest.at);
        within = omega (arith, rest.within);
        fits = rest.fits;
        first = λ v q. ground (arith, rest.first v q);
      })
]

get-set_ne :
    (ip k : ℕ) (v : LinkLayerEntry) (t : Table)
    → (get_or t k unused).ip ≢ ip
    → v.ip ≢ ip
    → get_link_layer_address ip (set t k v) ≡ get_link_layer_address ip t
unfolding get_link_layer_address
get-set_ne ip k v [] h q = refl
get-set_ne ip zero v (e ∷ es) h q = ground arith
get-set_ne ip (suc k) v (e ∷ es) h q = rw (get-set_ne ip k v es h q)

get-set_new :
    (ip k : ℕ) (v : LinkLayerEntry) (t : Table)
    → has_room ip t ≡ false
    → k < length t
    → v.ip ≡ ip
    → get_link_layer_address ip (set t k v) ≡ some v.link_layer
unfolding get_link_layer_address
get-set_new ip k v [] h l q = absurd (omega arith)
get-set_new ip zero v (e ∷ es) h l q = ground arith
get-set_new ip (suc k) v (e ∷ es) h l q = ground (arith, get-set_new ip k v es)

get-none : (ip : ℕ) (t : Table) → has_room ip t ≡ false → get_link_layer_address ip t ≡ none
unfolding get_link_layer_address
get-none ip [] h = refl
get-none ip (e ∷ es) h = ground (arith, get-none ip es)

-- no timestamp is less than `x`
abbrev pub AllGe : ℕ → Table → Type 0
AllGe x [] = Unit {0}
AllGe x (e ∷ es) = (x ≤ e.timestamp) × AllGe x es

abbrev pub stamp : Table → ℕ → ℕ
stamp t k = (get_or t k unused).timestamp

-- Either no entry is older than `mt`, or the answer is the least old of the entries from `i` on.
abbrev Least : ℕ → ℕ → ℕ → Table → ℕ → Type 0
Least i mt mi t r =
    ((r ≡ mi) × AllGe mt t)
    ⊎ ((k : ℕ) × (r ≡ i + k) × (k < length t) × (stamp t k < mt) × AllGe (stamp t k) t)

oldest-Least : (i mt mi : ℕ) (t : Table) → Least i mt mi t (oldest i mt mi t)
oldest-Least i mt mi [] = inl (refl, tt)
oldest-Least i mt mi (e ∷ es) = elim (Bool-cases (ltb e.timestamp mt)) [
  | inl less ↦ rw less (older (ltb→lt e.timestamp mt less) (oldest-Least (i + 1) e.timestamp i es))
  | inr more ↦ rw more (newer (not_ltb→le e.timestamp mt more) (oldest-Least (i + 1) mt mi es))
]
  where
    older : {r : ℕ} → e.timestamp < mt → Least (i + 1) e.timestamp i es r → Least i mt mi (e ∷ es) r
    older lt (inl (is, ge)) = inr (0, omega arith, omega arith, lt, (le_refl _, ge))
    older lt (inr (k, is, l, s, ge)) =
        inr (suc k, omega arith, omega arith, omega arith, (omega arith, ge))

    newer : {r : ℕ} → mt ≤ e.timestamp → Least (i + 1) mt mi es r → Least i mt mi (e ∷ es) r
    newer le (inl (is, ge)) = inl (is, (le, ge))
    newer le (inr (k, is, l, s, ge)) = inr (suc k, omega arith, omega arith, s, (omega arith, ge))

-- the entry that a table with no room for a new address gives up
abbrev pub victim : Table → ℕ
victim t = oldest 0 (stamp t 0) 0 t

victim-within : (t : Table) → 0 < length t → (victim t < length t) × AllGe (stamp t (victim t)) t
victim-within t pos = go (oldest-Least 0 (stamp t 0) 0 t)
  where
    go : {r : ℕ} → Least 0 (stamp t 0) 0 t r → (r < length t) × AllGe (stamp t r) t
    go (inl (is, ge)) = (omega arith, rw is ge)
    go {r} (inr (k, is, l, s, ge)) = let e : r ≡ k = omega arith in (omega arith, rw e ge)

-- the result of an addition in its two cases
add-hit :
    (ip now : ℕ) (ll : List ℕ) (t : Table)
    → has_room ip t ≡ true
    → (k : ℕ) × (add_link_layer_address ip ll now t
        ≡ set t k (refresh ip ll now (get_or t k unused)))
      × (((get_or t k unused).ip ≡ ip) ⊎ ((get_or t k unused).ip ≡ 0))
      × ((v : LinkLayerEntry)
          → v.ip ≡ ip
          → get_link_layer_address ip (set t k v) ≡ some v.link_layer)
unfolding add_link_layer_address
add-hit ip now ll t h =
    let s = scan-Stops ip 0 (stamp t 0) 0 t h in
    let at : (scan ip 0 (stamp t 0) 0 t).1 ≡ s.slot = omega (arith, s.at) in
    let e : scan ip 0 (stamp t 0) 0 t ≡ (true, s.slot) = λ j. (s.hit j, at j) in
    (s.slot, rw e refl, s.fits, s.first)

add-miss :
    (ip now : ℕ) (ll : List ℕ) (t : Table)
    → has_room ip t ≡ false
    → add_link_layer_address ip ll now t
      ≡ set t (victim t) (replace ip ll (get_or t (victim t) unused))
unfolding add_link_layer_address
add-miss ip now ll t h = rw (scan-oldest ip 0 (stamp t 0) 0 t h) refl

-- In a table with at least one entry, an address that was just added is found, with the link-layer
-- address it was added with, whether it was known, took an unused entry or replaced another.
get-add :
    (ip now : ℕ) (ll : List ℕ) (t : Table)
    → 0 < length t
    → get_link_layer_address ip (add_link_layer_address ip ll now t) ≡ some ll
get-add ip now ll t pos = elim (Bool-cases (has_room ip t)) [
  | inl h ↦ let (k, e, fits, first) = add-hit ip now ll t h in rw e (first _ (ground arith))
  | inr h ↦
      rw (add-miss ip now ll t h) (get-set_new ip (victim t) _ t h (victim-within t pos).0 refl)
]

-- Where an entry is unused or holds the address that is added, the answer for every other address
-- stays what it was.
get-add_ne :
    (ip j now : ℕ) (ll : List ℕ) (t : Table)
    → has_room ip t ≡ true
    → j ≢ 0
    → j ≢ ip
    → get_link_layer_address j (add_link_layer_address ip ll now t) ≡ get_link_layer_address j t
get-add_ne ip j now ll t h nz ne =
    let (k, e, fits, first) = add-hit ip now ll t h in
    rw e (get-set_ne j k _ t (ground arith) (ground arith))

-- Where every entry holds another address, adding one gives up an entry that no entry is older
-- than: its address and link-layer address are replaced, its timestamp stays, and the answer for every
-- address but the old and the new one stays what it was.
add-evicts :
    (ip now : ℕ) (ll : List ℕ) (t : Table)
    → 0 < length t
    → has_room ip t ≡ false
    → (k : ℕ) × (k < length t)
      × AllGe (stamp t k) t
      × (add_link_layer_address ip ll now t
          ≡ set t k (record { ip = ip; timestamp = stamp t k; link_layer = ll }))
      × ((j : ℕ)
          → j ≢ ip
          → j ≢ (get_or t k unused).ip
          → get_link_layer_address j (add_link_layer_address ip ll now t)
            ≡ get_link_layer_address j t)
add-evicts ip now ll t pos h =
    let (l, ge) = victim-within t pos in
    (
      victim t,
      l,
      ge,
      add-miss ip now ll t h,
      λ j ne old.
          rw (add-miss ip now ll t h)
            (get-set_ne j (victim t) _ t (λ e. old (sym e)) (λ e. ne (sym e))),
    )

oldest-set :
    (i mt mi k : ℕ) (v : LinkLayerEntry) (t : Table)
    → v.timestamp ≡ stamp t k
    → oldest i mt mi (set t k v) ≡ oldest i mt mi t
oldest-set i mt mi k v [] e = refl
oldest-set i mt mi zero v (x ∷ es) e = rw e
oldest-set i mt mi (suc k) v (x ∷ es) e = oldest-set (i + 1) _ _ k v es e

stamp-set :
    (k j : ℕ) (v : LinkLayerEntry) (t : Table)
    → v.timestamp ≡ stamp t k
    → stamp (set t k v) j ≡ stamp t j
stamp-set k j v [] e = refl
stamp-set zero zero v (x ∷ es) e = e
stamp-set zero (suc j) v (x ∷ es) e = refl
stamp-set (suc k) zero v (x ∷ es) e = refl
stamp-set (suc k) (suc j) v (x ∷ es) e = stamp-set k j v es e

victim-set :
    (k : ℕ) (v : LinkLayerEntry) (t : Table)
    → v.timestamp ≡ stamp t k
    → victim (set t k v) ≡ victim t
victim-set k v t e = rw (stamp-set k 0 v t e) (oldest-set 0 (stamp t 0) 0 k v t e)

set-set : (k : ℕ) (v w : LinkLayerEntry) (t : Table) → set (set t k v) k w ≡ set t k w
set-set k v w [] = refl
set-set zero v w (x ∷ es) = refl
set-set (suc k) v w (x ∷ es) = rw (set-set k v w es)

has_room-set :
    (ip k : ℕ) (v : LinkLayerEntry) (t : Table)
    → has_room ip t ≡ false
    → v.ip ≢ ip
    → v.ip ≢ 0
    → has_room ip (set t k v) ≡ false
has_room-set ip k v [] h a b = refl
has_room-set ip zero v (x ∷ es) h a b = ground arith
has_room-set ip (suc k) v (x ∷ es) h a b = ground (arith, has_room-set ip k v es)

not-holds : (ip k : ℕ) (t : Table) → has_room ip t ≡ false → ip ≢ 0 → (get_or t k unused).ip ≢ ip
not-holds ip k [] h nz e = nz (sym e)
not-holds ip zero (x ∷ es) h nz e = ground arith
not-holds ip (suc k) (x ∷ es) h nz e = not-holds ip k es (ground arith) nz e

-- A table whose entries all hold other addresses loses one of two addresses that are added in turn:
-- the second addition replaces the entry that the first has just filled, since filling it did not
-- renew its timestamp.
pub add-add-forgets :
    (a b now later : ℕ) (x y : List ℕ) (t : Table)
    → 0 < length t
    → a ≢ 0
    → a ≢ b
    → has_room a t ≡ false
    → has_room b t ≡ false
    → get_link_layer_address a (add_link_layer_address b y later (add_link_layer_address a x now t))
      ≡ none
add-add-forgets a b now later x y t pos nz ne ha hb =
    rw
      (
        add-miss a now x t ha,
        add-miss b later y _ (has_room-set b (victim t) _ t hb ne nz),
        victim-set (victim t) (replace a x (get_or t (victim t) unused)) t refl,
        set-set,
      )
      (get-set_ne a (victim t) _ t (not-holds a (victim t) t ha nz) (λ e. ne (sym e))
        ∙ get-none a t ha)
