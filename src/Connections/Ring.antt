-- ===== src/Connections/Ring.antt =====
-- The circular list of connections, with its links, and the operations of core/connections.c on it.
pub mod Laws
pub mod Walk
use smews.Base.{
  ℕ, zero, suc, ◌+◌, Bool, true, false, not, ◌&&◌, ◌||◌, Option, none, some, List, [], ◌∷◌, ◌++◌,
  ◌==◌, if◌then◌else◌,
}
use smews.Memory.{Allocator, mem_alloc, mem_free}
use smews.Connections.{Connection}

-- `all_connections`, and the fields of every `struct connection` by its address
pub record Ring : Type 0 where
  pub all_connections : Option ℕ
  pub next : ℕ → ℕ
  pub prev : ℕ → ℕ
  pub conn : ℕ → Connection

unfoldable pub put {ℓ} : {A : Type ℓ} → (ℕ → A) → ℕ → A → ℕ → A
put f a v x = if x == a then v else f x

-- `insert the new connection`, of address `p`, behind all others
unfoldable pub insert : ℕ → Connection → Ring → Ring
unfolding put
insert p c s = elim s.all_connections [
  | none ↦ record {
    all_connections = some p;
    next = put s.next p p;
    prev = put s.prev p p;
    conn = put s.conn p c;
  }
  | some head ↦
      (let prev = put s.prev p (s.prev head) in
        record s {
          next = put (put s.next (prev p) p) p head;
          prev = put prev head p;
          conn = put s.conn p c;
        })
]

-- what `free_connection` does to the links
unfoldable pub unlink : ℕ → Ring → Ring
unfolding put
unlink p s =
    let next = put s.next (s.prev p) (s.next p) in
    let prev = put s.prev (next p) (s.prev p) in
    record s {
      all_connections = if p == next p then none else some (next p);
      next = next;
      prev = prev;
    }
