-- ===== src/Receive/Commit/Laws.antt =====
-- New connections, and segments of no connection.
use mathlib.Core.Path.{subst}
use smews.Base.{ℕ, ◌≡◌, ◌≢◌, refl, sym, ap, ◌∙◌, false, Option, none, some, List, [], ◌∷◌, ◌++◌}
use smews.Memory.{Allocator, mem_alloc}
use smews.Service.{Sizes}
use smews.Connections.{Connection, tcp_syn_rcvd}
use smews.Connections.Ring.{Ring, put, insert}
use smews.Connections.Ring.Laws.{IsRing, Links, NotMem, insert-append, put_self, put-ne, put-same}
use smews.Connections.Store.{Store}
use smews.Connections.Store.Laws.{add_connection-some}
use smews.Receive.Tcp.{Deferred}
use smews.Receive.Commit.{
  RstConnection, TmpConnection, linked, run_deferred, find_or_add, settle, commit, is_listen,
  is_syn_rcvd, reset_for, store_conn,
}

-- what is left of the ring when the connection `c` is new and stored at `p`
pub record IsNew (c : Connection) (p : ℕ) (xs : List ℕ) (s s' : Store) : Type 0 where
  pub order : IsRing s'.ring (xs ++ p ∷ [])
  pub at : s'.ring.conn p ≡ c
  pub others : (y : ℕ) → y ≢ p → s'.ring.conn y ≡ s.ring.conn y

-- A connection that is stored with the links it has leaves the ring.
IsRing-stored :
    (r : Ring) (p : ℕ) (c : Connection) (xs : List ℕ)
    → IsRing r xs
    → IsRing
        (record r {
          next = put r.next p (r.next p);
          prev = put r.prev p (r.prev p);
          conn = put r.conn p c;
        })
        xs
IsRing-stored r p c [] h = h
IsRing-stored r p c (x ∷ xs) h = (
  h.0,
  subst (λ (pv : ℕ → ℕ). Links (put r.next p (r.next p)) pv x xs x) (sym (put-same r.prev p))
      (subst (λ (nx : ℕ → ℕ). Links nx r.prev x xs x) (sym (put-same r.next p)) h.1),
  h.2,
)

module _ (fuel : ℕ) (z : Sizes) (stack_of : ℕ → Option ℕ × ℕ) (d : Deferred) (inack : ℕ)
    (tmp : TmpConnection) (s : Store) (rst : RstConnection) where
  run_deferred-none :
      d.clean_service ≡ false
      → run_deferred fuel z stack_of d inack tmp.connection s ≡ some (tmp.connection, s)
  unfolding run_deferred
  run_deferred-none e = rw e refl

  find_or_add-new :
      (p : ℕ) (heap : Allocator)
      → tmp.connection.http.tcp_state ≡ tcp_syn_rcvd
      → mem_alloc fuel z.connection_size s.heap ≡ some (some p, heap)
      → find_or_add fuel z none tmp s
        ≡ some (
          some p,
          record tmp {
            next = (insert p tmp.connection s.ring).next p;
            prev = (insert p tmp.connection s.ring).prev p;
          },
          record s { heap = heap; ring = insert p tmp.connection s.ring },
        )
  unfolding find_or_add
  find_or_add-new p heap syn room =
      rw (find_or_add, ap is_syn_rcvd syn)
        (ap (linked tmp) (add_connection-some fuel z tmp.connection s p heap room))

  -- The first SYN of a client, when nothing is deferred and there is room for a connection at p, where none of the ring
  -- is: whatever the links of `tmp_connection` were, the connection is stored there, behind all others in the
  -- ring, no other connection changes, and no reset is sent.
  pub commit-IsNew :
      (p : ℕ) (heap : Allocator) (xs : List ℕ)
      → d.clean_service ≡ false
      → tmp.connection.http.tcp_state ≡ tcp_syn_rcvd
      → mem_alloc fuel z.connection_size s.heap ≡ some (some p, heap)
      → IsRing s.ring xs
      → NotMem p xs
      → (s' : Store) × (commit fuel z stack_of d inack none tmp s rst ≡ some (s', rst))
        × IsNew tmp.connection p xs s s'
  unfolding commit settle
  commit-IsNew p heap xs keep syn room ring new =
      let c = tmp.connection in
      let added = insert p c s.ring in
      let (order, at, others) = insert-append p c s.ring xs ring new in
      (
        store_conn p (record tmp { next = added.next p; prev = added.prev p })
            (record s { heap = heap; ring = added }),
        rw (commit, run_deferred-none keep, find_or_add-new p heap syn room, ap is_listen syn) refl,
        record {
          order = IsRing-stored added p c (xs ++ p ∷ []) order;
          at = put_self added.conn p c;
          others = λ y ne. put-ne added.conn p c y ne ∙ others y ne;
        },
      )

  -- A segment of no connection that does not open one: nothing is stored, and a reset is prepared for its sender, with
  -- the sequence number that it acknowledges.
  pub commit-reset :
      d.clean_service ≡ false
      → is_syn_rcvd tmp.connection.http.tcp_state ≡ false
      → commit fuel z stack_of d inack none tmp s rst ≡ some (s, reset_for inack tmp.connection)
  unfolding commit find_or_add settle
  commit-reset keep other = rw (commit, run_deferred-none keep, other) refl
