-- ===== src/Connections/Ring/Walk.antt =====
-- The macro FOR_EACH_CONN of core/connections.h around a test with a `break`, as core/output.c and
-- core/input.c look for a connection, and the round robin of `smews_send`.
use smews.Base.{
  ℕ, zero, suc, ◌≡◌, ◌≤◌, ◌<◌, refl, sym, ap, arith, Bool, true, false, Option, none, some, List,
  [], ◌∷◌, ◌++◌, ◌==◌, if◌then◌else◌, length, ne-==, ==_refl,
}
use smews.Connections.{Connection}
use smews.Connections.Ring.{Ring}
use smews.Connections.Ring.Laws.{
  NotMem, Distinct, Links, IsRing, Links-append, Links-rotate, Distinct-rotate, Distinct-end,
  ring-Cycle, ring-Distinct,
}

-- The loop from the item `p` on; `none` if the fuel runs out.
unfoldable pub search_from : ℕ → (Connection → Bool) → Ring → ℕ → ℕ → Option (Option ℕ)
search_from zero test s head p = none
search_from (suc fuel) test s head p =
    let rest = search_from fuel test s head (s.next p) in
    if test (s.conn p) then some (some p) else if s.next p == head then some none else rest

unfoldable pub search : ℕ → (Connection → Bool) → Ring → Option (Option ℕ)
unfolding search_from
search fuel test s = elim s.all_connections [
  | none ↦ some none
  | some head ↦ search_from fuel test s head head
]

-- `all_connections = active_connection->next`
unfoldable pub round_robin : ℕ → Ring → Ring
round_robin p s = record s { all_connections = some (s.next p) }

-- the first address in the list that passes the test
abbrev pub first : (Connection → Bool) → (ℕ → Connection) → List ℕ → Option ℕ
first test conn [] = none
first test conn (x ∷ xs) = if test (conn x) then some x else first test conn xs

search_from-first :
    (fuel : ℕ) (test : Connection → Bool) (s : Ring) (head p : ℕ) (xs : List ℕ)
    → length xs < fuel
    → Links s.next s.prev p xs head
    → NotMem head xs
    → search_from fuel test s head p ≡ some (first test s.conn (p ∷ xs))
unfolding search_from
search_from-first (suc fuel) test s head p [] f l n = rw (l.0, ==_refl head) (go (test (s.conn p)))
  where
    go : (b : Bool) → (if b then some (some p) else some none) ≡ some (if b then some p else none)
    go true = refl
    go false = refl
search_from-first (suc fuel) test s head p (x ∷ xs) f l n =
    rw
      (
        l.0,
        ne-== x head (λ e. n.0 (sym e)),
        search_from-first fuel test s head x xs (omega arith) l.2 n.1,
      )
      (go (test (s.conn p)))
  where
    go :
        (b : Bool)
        → (if b then some (some p) else some (first test s.conn (x ∷ xs)))
          ≡ some (if b then some p else first test s.conn (x ∷ xs))
    go true = refl
    go false = refl
search_from-first zero test s head p xs f l n = absurd (omega arith)

-- The loop over the ring ends, and finds the first connection of the list that passes the test.
pub search-first :
    (fuel : ℕ) (test : Connection → Bool) (s : Ring) (xs : List ℕ)
    → IsRing s xs
    → length xs ≤ fuel
    → search fuel test s ≡ some (first test s.conn xs)
unfolding search
search-first fuel test s [] h f = rw h refl
search-first fuel test s (x ∷ xs) h f = rw h.0 (
    search_from-first fuel test (record s { all_connections = some x }) x x xs (omega arith) h.1
      h.2.0)

-- Behind the round robin the chosen connection is the last one, and the order is kept otherwise.
pub round_robin-rotate :
    (p : ℕ) (s : Ring) (ys zs : List ℕ)
    → IsRing s (ys ++ p ∷ zs)
    → IsRing (round_robin p s) (zs ++ ys ++ p ∷ [])
unfolding round_robin
round_robin-rotate p s ys zs h =
    go (zs ++ ys) (Links-rotate s.next s.prev p ys zs (ring-Cycle s (ys ++ p ∷ zs) h))
      (Distinct-rotate p ys zs (ring-Distinct s (ys ++ p ∷ zs) h))
  where
    go :
        (rs : List ℕ)
        → Links s.next s.prev p rs p
        → Distinct (p ∷ rs)
        → IsRing (round_robin p s) (rs ++ p ∷ [])
    go [] l d = (ap some l.0, l, d)
    go (q ∷ qs) l d = (
      ap some l.0,
      Links-append s.next s.prev q p q qs [] l.2 (l.0, l.1),
      Distinct-end p (q ∷ qs) d.0 d.1,
    )
