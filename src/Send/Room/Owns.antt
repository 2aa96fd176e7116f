-- ===== src/Send/Room/Owns.antt =====
-- Blocks that were taken from the free memory, and the calls that take and free them.
use smews.Base.{
  ℕ, ◌+◌, ◌*◌, ◌^◌, ◌≡◌, ◌≤◌, ◌<◌, ◌⊎◌, refl, arith, ap, ◌∙◌, Option, none, some, List, [], ◌∷◌,
  u16, inl, inr, ne-==,
}
use smews.Memory.{Allocator, mem_alloc, mem_free}
use smews.Memory.Chain.{Span, span, total, Holds}
use smews.Memory.Alloc.{first_fit, Allocated, mem_alloc-first_fit}
use smews.Memory.Free.{insert, mem_free-insert}
use smews.Memory.Reuse.{first_fit-Fits}
use smews.Memory.Realloc.{Clear-first_fit}
use smews.Service.{Sizes, ServiceHeader, GeneratorService}
use smews.Service.Release.{
  Disjoint, DisjointAll, InUse, Blocks, AllPos, insert_all, total-insert_all, InUse-insert,
  release-Holds,
}
use smews.Coroutines.{context_backup, backup_stack, backed_up}
use smews.Send.Room.{blank, give_back}

-- `size` bytes are `n` words
pub record Words (size n : ℕ) : Type 0 where
  pub some_bytes : 0 < size
  pub enough : size ≤ 4 * n
  pub close : 4 * n < size + 4
  pub small : n < 2 ^ 14

-- The blocks `xs` were taken from free memory of `sum` words, and `bs` is left.
pub record Owns (words sum : ℕ) (heap : Allocator) (xs bs : List Span) : Type 0 where
  pub holds : Holds words heap bs
  pub used : InUse words xs bs
  pub positive : AllPos xs
  pub adds_up : total xs + total bs ≡ sum

used-first_fit :
    (words m q : ℕ) (xs bs rest : List Span)
    → first_fit m bs ≡ some (q, rest)
    → InUse words xs bs
    → InUse words xs rest × DisjointAll (span q m) xs
used-first_fit words m q [] bs rest e u = (tt, tt)
used-first_fit words m q (x ∷ xs) bs rest e u =
    let (clear, apart) = Clear-first_fit words m x bs q rest e u.0 in
    let (used, disjoint) = used-first_fit words m q xs bs rest e u.2 in
    ((clear, u.1, used), (swap apart, disjoint))
  where
    swap : (x.addr + x.size ≤ q) ⊎ (q + m ≤ x.addr) → Disjoint (span q m) x
    swap (inl l) = inr l
    swap (inr l) = inl l

-- An allocation takes a block from what is left, or changes nothing.
abbrev Took : ℕ → ℕ → ℕ → List Span → Allocator → Option (Option ℕ × Allocator) → Type 0
Took words sum n xs heap r =
    (r ≡ some (none, heap))
    ⊎ ((q : ℕ) × (heap' : Allocator) × (bs' : List Span) × (r ≡ some (some q, heap'))
        × Owns words sum heap' (span q n ∷ xs) bs')

module _ (words fuel sum : ℕ) (f : words < fuel) where
  pub takes :
      (size n : ℕ) (heap : Allocator) (xs bs : List Span)
      → Words size n
      → Owns words sum heap xs bs
      → Took words sum n xs heap (mem_alloc fuel size heap)
  takes size n heap xs bs w o = go (first_fit n bs) refl (
      mem_alloc-first_fit words fuel size n heap bs o.holds f w.some_bytes w.enough w.close w.small)
    where
      go :
          (t : Option (ℕ × List Span))
          → first_fit n bs ≡ t
          → Allocated words bs heap t (mem_alloc fuel size heap)
          → Took words sum n xs heap (mem_alloc fuel size heap)
      go none e a = inl a
      go (some (q, rest)) e (r, returns, taken) =
          let fit =
            first_fit-Fits words n heap.cells (omega (arith, w.some_bytes, w.enough)) q bs rest
              o.holds.chain e in
          let (used, disjoint) = used-first_fit words n q xs bs rest e o.used in
          inr (
            q,
            r.1,
            rest,
            returns ∙ ap (λ (p : Option ℕ). some (p, r.1)) taken.result,
            record {
              holds = taken.holds;
              used = (fit.clear, disjoint, used);
              positive = (omega (arith, w.some_bytes, w.enough), o.positive);
              adds_up = omega (arith, fit.sum, o.adds_up);
            },
          )

  -- Freeing all blocks leaves as much free memory as there was.
  pub gives_back :
      (heap : Allocator) (xs bs : List Span) (blocks : List (Option ℕ × ℕ))
      → Owns words sum heap xs bs
      → Blocks blocks xs
      → (heap' : Allocator) × (bs' : List Span) × (give_back fuel blocks heap ≡ some (none, heap'))
        × Owns words sum heap' [] bs'
  gives_back heap xs bs blocks o b =
      let (heap', returns, holds) = release-Holds words fuel blocks xs bs heap f o.holds b o.used in
      (
        heap',
        insert_all xs bs,
        rw (give_back, returns) refl,
        record {
          holds = holds;
          used = tt;
          positive = tt;
          adds_up = omega (arith, total-insert_all xs bs, o.adds_up);
        },
      )

  -- Freeing the block that was taken last is as if it had not been taken.
  pub untakes :
      (size n q : ℕ) (heap : Allocator) (xs bs : List Span)
      → Words size n
      → Owns words sum heap (span q n ∷ xs) bs
      → (heap' : Allocator) × (bs' : List Span) × (mem_free fuel (some q) size heap ≡ some heap')
        × Owns words sum heap' xs bs'
  untakes size n q heap xs bs w o =
      let (heap', frees, freed) =
        mem_free-insert words fuel q size n heap bs o.holds f w.some_bytes w.enough w.close w.small
          o.used.0 in
      (
        heap',
        insert (span q n) bs,
        frees,
        record {
          holds = freed.holds;
          used = InUse-insert words (span q n) xs bs o.positive.1 o.used.1 o.used.2;
          positive = o.positive.1;
          adds_up = omega (arith, total-insert_all (span q n ∷ []) bs, o.adds_up);
        },
      )

  module _ (z : Sizes) (sp nc ns : ℕ) (service : GeneratorService) (next_outseqno i : ℕ)
      (header : ServiceHeader) (wc : Words z.context_size nc) (ws : Words (u16 sp) ns) where
    -- A copy of a context is taken completely or not at all.
    abbrev Copied : List Span → Option (Option GeneratorService × Allocator) → Type 0
    Copied xs r =
        ((heap' : Allocator) × (bs' : List Span) × (r ≡ some (none, heap'))
          × Owns words sum heap' xs bs')
        ⊎ ((p q : ℕ) × (heap' : Allocator) × (bs' : List Span) × (r
              ≡ some (
                some (backed_up next_outseqno (blank i header) service p (some q) (u16 sp)),
                heap',
              ))
            × Owns words sum heap' (span q ns ∷ span p nc ∷ xs) bs')

    pub copies :
        (heap : Allocator) (xs bs : List Span)
        → Owns words sum heap xs bs
        → Copied xs (context_backup fuel z sp service next_outseqno (blank i header) heap)
    unfolding context_backup backup_stack
    copies heap xs bs o = elim (takes z.context_size nc heap xs bs wc o) [
      | inl e ↦ inl (heap, bs, rw (context_backup, e) refl, o)
      | inr (p, heap1, bs1, e, o1) ↦ elim (takes (u16 sp) ns heap1 (span p nc ∷ xs) bs1 ws o1) [
        | inl e1 ↦
            (let (heap2, bs2, frees, o2) = untakes z.context_size nc p heap1 xs bs1 wc o1 in
              inl (
                heap2,
                bs2,
                rw
                    (
                      context_backup,
                      e,
                      backup_stack,
                      ne-== (u16 sp) 0 (omega (arith, ws.some_bytes)),
                      e1,
                      frees,
                    )
                    refl,
                o2,
              ))
        | inr (q, heap2, bs2, e1, o2) ↦ inr (
          p,
          q,
          heap2,
          bs2,
          rw (context_backup, e, backup_stack, ne-== (u16 sp) 0 (omega (arith, ws.some_bytes)), e1)
              refl,
          o2,
        )
      ]
    ]
