-- ===== src/Connections/Store/Laws.antt =====
-- Adding and freeing a connection, in the ring and in the allocator at once.
use smews.Base.{ℕ, ◌+◌, ◌-◌, ◌*◌, ◌^◌, ◌≡◌, ◌≤◌, ◌<◌, refl, true, some, List, [], ◌∷◌, ◌++◌}
use smews.Memory.{Allocator, mem_alloc, mem_free, get_free_mem}
use smews.Memory.Chain.{Span, total, Holds}
use smews.Memory.Alloc.{first_fit}
use smews.Memory.Reuse.{mem_free-mem_alloc}
use smews.Service.{Sizes}
use smews.Connections.{Connection, is_gpip}
use smews.Connections.Ring.{insert, unlink}
use smews.Connections.Ring.Laws.{NotMem, IsRing, insert-append, unlink-rotate}
use smews.Connections.Store.{Store, add_connection, free_http, free_connection}

-- A connection of another IP protocol owns no more than its own block.
free_http-gpip :
    (fuel : ℕ) (z : Sizes) (c : Connection) (s : Store)
    → is_gpip c ≡ true
    → free_http fuel z c s ≡ some s
unfolding free_http
free_http-gpip fuel z c s e = rw e refl

pub free_connection-gpip :
    (fuel : ℕ) (z : Sizes) (p : ℕ) (s : Store) (heap : Allocator)
    → is_gpip (s.ring.conn p) ≡ true
    → mem_free fuel (some p) z.connection_size s.heap ≡ some heap
    → free_connection fuel z p s ≡ some (record s { heap = heap; ring = unlink p s.ring })
unfolding free_connection
free_connection-gpip fuel z p s heap g e =
    rw
      (
        free_connection,
        free_http-gpip fuel z (s.ring.conn p) (record s { ring = unlink p s.ring }) g,
        e,
      )
      refl

pub add_connection-some :
    (fuel : ℕ) (z : Sizes) (c : Connection) (s : Store) (p : ℕ) (heap : Allocator)
    → mem_alloc fuel z.connection_size s.heap ≡ some (some p, heap)
    → add_connection fuel z c s ≡ some (some p, record s { heap = heap; ring = insert p c s.ring })
unfolding add_connection
add_connection-some fuel z c s p heap e = rw (add_connection, e) refl

module _ (words fuel n p : ℕ) (z : Sizes) (c : Connection) (s : Store) (bs rest : List Span)
    (xs : List ℕ) where
  -- When the first free span that is large enough for a connection begins at p, and no connection of
  -- the ring is there, a connection of another IP protocol goes behind all others and takes its own
  -- words of the free memory, and freeing it gives back the ring and the free spans as they were.
  pub free_connection-add_connection :
      Holds words s.heap bs
      → words < fuel
      → 0 < z.connection_size
      → z.connection_size ≤ 4 * n
      → 4 * n < z.connection_size + 4
      → n < 2 ^ 14
      → first_fit n bs ≡ some (p, rest)
      → IsRing s.ring xs
      → NotMem p xs
      → is_gpip c ≡ true
      → (s' s'' : Store) × (add_connection fuel z c s ≡ some (some p, s'))
        × IsRing s'.ring (xs ++ p ∷ [])
        × (get_free_mem fuel s'.heap ≡ some ((total bs - n) * 4))
        × (free_connection fuel z p s' ≡ some s'')
        × IsRing s''.ring xs
        × Holds words s''.heap bs
  free_connection-add_connection h f pos l u small fit ring new g =
      let (heap', heap'', allocs, less, frees, holds) =
        mem_free-mem_alloc words fuel z.connection_size n p s.heap bs rest h f pos l u small fit in
      let (appended, stored, others) = insert-append p c s.ring xs ring new in
      (
        record s { heap = heap'; ring = insert p c s.ring },
        record s { heap = heap''; ring = unlink p (insert p c s.ring) },
        add_connection-some fuel z c s p heap' allocs,
        appended,
        less,
        free_connection-gpip fuel z p (record s { heap = heap'; ring = insert p c s.ring }) heap''
            (rw stored g) frees,
        unlink-rotate p (insert p c s.ring) xs [] appended,
        holds,
      )
