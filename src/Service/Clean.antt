-- ===== src/Service/Clean.antt =====
-- Which segments `clean_service` keeps, and what it gives back to the allocator.
use smews.Base.{
  ℕ, ◌+◌, ◌*◌, ◌≤◌, ◌<◌, ◌≡◌, refl, sym, ap, ◌∙◌, arith, Bool-cases, inl, inr, Bool, true, false,
  Option, none, some, List, [], ◌∷◌, ◌++◌, leb,
}
use smews.Memory.{Allocator, get_free_mem}
use smews.Memory.Chain.{Span, total, Holds}
use smews.Memory.Reuse.{get_free_mem-total}
use smews.Service.{
  InFlight, Infos, context, buffer, GeneratorService, Sizes, release, infos_blocks, freed_infos,
  segment_blocks, blocks_of, freed_blocks, split_acked, split_by, release_infos, clean_service,
}
use smews.Service.Release.{InUse, Blocks, insert_all, total-insert_all, release-Holds}

-- The newest segment stands first, as those that add segments leave the list.
abbrev pub NewestFirst : List InFlight → Type 0
NewestFirst [] = Unit {0}
NewestFirst (i ∷ []) = Unit {0}
NewestFirst (i ∷ j ∷ is) = (j.next_outseqno ≤ i.next_outseqno) × NewestFirst (j ∷ is)

abbrev pub AllFrom : ℕ → List InFlight → Type 0
AllFrom n [] = Unit {0}
AllFrom n (i ∷ is) = (n ≤ i.next_outseqno) × AllFrom n is

abbrev pub AllBelow : ℕ → List InFlight → Type 0
AllBelow n [] = Unit {0}
AllBelow n (i ∷ is) = (i.next_outseqno < n) × AllBelow n is

all_below :
    (n : ℕ) (i : InFlight) (is : List InFlight)
    → i.next_outseqno < n
    → NewestFirst (i ∷ is)
    → AllBelow n (i ∷ is)
all_below n i [] h s = (h, tt)
all_below n i (j ∷ is) h s = (h, all_below n j is (omega arith) s.1)

abbrev rest_of : List InFlight → List InFlight
rest_of [] = []
rest_of (i ∷ is) = is

NewestFirst-tail : (i : InFlight) (is : List InFlight) → NewestFirst (i ∷ is) → NewestFirst is
NewestFirst-tail i [] s = tt
NewestFirst-tail i (j ∷ is) s = s.1

-- `split_acked` cuts the list in two.
record Cut (n : ℕ) (is : List InFlight) (r : List InFlight × List InFlight) : Type 0 where
  whole : r.0 ++ r.1 ≡ is
  kept : AllFrom n r.0
  acked : AllBelow n r.1

split_acked-Cut : (n : ℕ) (is : List InFlight) → NewestFirst is → Cut n is (split_acked n is)
unfolding split_acked
split_acked-Cut n [] s = record { whole = refl; kept = tt; acked = tt }
split_acked-Cut n (i ∷ is) s = elim (Bool-cases (leb n i.next_outseqno)) [
  | inl h ↦
      let c = split_acked-Cut n is (NewestFirst-tail i is s) in
      let le : n ≤ i.next_outseqno = ground arith in
      rw h (record {
        whole = ap (λ (t : List InFlight). i ∷ t) c.whole;
        kept = (le, c.kept);
        acked = c.acked;
      })
  | inr h ↦
      let lt : i.next_outseqno < n = ground arith in
      rw h (record { whole = refl; kept = tt; acked = all_below n i is lt s })
]

split_acked-append :
    (n : ℕ) (kept acked : List InFlight)
    → AllFrom n kept
    → AllBelow n acked
    → split_acked n (kept ++ acked) ≡ (kept, acked)
unfolding split_acked
split_acked-append n [] [] k a = refl
split_acked-append n [] (i ∷ is) k a = ground arith
split_acked-append n (i ∷ is) acked k a = rw (split_acked-append n is acked k.1 a) (ground arith)

-- A service that keeps buffers has buffers in its segments, any other has contexts.
abbrev pub IsMember : Bool → Infos → Type 0
IsMember true (buffer p) = Unit {0}
IsMember false (context p stack stack_size) = Unit {0}
IsMember _ _ = ⊥

abbrev pub Members : Bool → List InFlight → Type 0
Members persistent [] = Unit {0}
Members persistent (i ∷ is) = IsMember persistent i.infos × Members persistent is

freed_infos-blocks :
    (z : Sizes) (persistent : Bool) (u : Infos)
    → IsMember persistent u
    → freed_infos z persistent u ≡ some (infos_blocks z u)
unfolding freed_infos infos_blocks
freed_infos-blocks z true (buffer p) m = refl
freed_infos-blocks z true (context p stack stack_size) m = absurd m
freed_infos-blocks z false (buffer p) m = absurd m
freed_infos-blocks z false (context p stack stack_size) m = refl

-- What the flag of the service makes `clean_service` free is what the segments own.
freed_blocks-owned :
    (z : Sizes) (persistent : Bool) (is : List InFlight)
    → Members persistent is
    → freed_blocks z persistent is ≡ some (blocks_of z is)
unfolding freed_blocks blocks_of segment_blocks
freed_blocks-owned z persistent [] m = refl
freed_blocks-owned z persistent (i ∷ is) m =
    rw
      (
        freed_blocks,
        freed_infos-blocks z persistent i.infos m.0,
        freed_blocks-owned z persistent is m.1,
      )
      refl

clean_service-release :
    (fuel : ℕ) (z : Sizes) (s : GeneratorService) (inack : Option ℕ) (heap heap' : Allocator)
    (kept acked : List InFlight)
    → split_by inack s.in_flight_infos ≡ (kept, acked)
    → Members s.is_persistent acked
    → release fuel (blocks_of z acked) heap ≡ some heap'
    → clean_service fuel z s inack heap ≡ some (record s { in_flight_infos = kept }, heap')
unfolding clean_service release_infos
clean_service-release fuel z s inack heap heap' kept acked e m r =
    rw (clean_service, e, freed_blocks-owned z s.is_persistent acked m, r, e) refl

-- When the segments that are in flight are some whose number is at least that of the acknowledgement and, behind
-- them, some whose number is below it, all compared as 32-bit numbers without wrapping, then with more fuel than
-- words the former stay and all blocks of the latter are given back, provided that these blocks are in use and that
-- the latter have buffers in a service that keeps buffers and contexts in any other: every call of `mem_free` ends, and
-- the free memory grows by the words of the blocks.
pub clean_service-acked :
    (words fuel inack : ℕ) (z : Sizes) (s : GeneratorService) (heap : Allocator)
    (kept acked : List InFlight) (xs bs : List Span)
    → words < fuel
    → Holds words heap bs
    → s.in_flight_infos ≡ kept ++ acked
    → AllFrom inack kept
    → AllBelow inack acked
    → Members s.is_persistent acked
    → Blocks (blocks_of z acked) xs
    → InUse words xs bs
    → (heap' : Allocator) × (clean_service fuel z s (some inack) heap
        ≡ some (record s { in_flight_infos = kept }, heap'))
      × Holds words heap' (insert_all xs bs)
      × (get_free_mem fuel heap' ≡ some ((total xs + total bs) * 4))
clean_service-acked words fuel inack z s heap kept acked xs bs f h e ka ab m b u =
    let (heap', r, h') = release-Holds words fuel (blocks_of z acked) xs bs heap f h b u in
    (
      heap',
      clean_service-release fuel z s (some inack) heap heap' kept acked
          (rw e (split_acked-append inack kept acked ka ab)) m r,
      h',
      (get_free_mem-total words fuel heap' (insert_all xs bs) h' f).0
          ∙ ap (λ (k : ℕ). some (k * 4)) (total-insert_all xs bs),
    )

-- Without an acknowledgement all segments go, and all their blocks are given back.
clean_service-all :
    (words fuel : ℕ) (z : Sizes) (s : GeneratorService) (heap : Allocator) (xs bs : List Span)
    → words < fuel
    → Holds words heap bs
    → Members s.is_persistent s.in_flight_infos
    → Blocks (blocks_of z s.in_flight_infos) xs
    → InUse words xs bs
    → (heap' : Allocator) × (clean_service fuel z s none heap
        ≡ some (record s { in_flight_infos = [] }, heap'))
      × Holds words heap' (insert_all xs bs)
clean_service-all words fuel z s heap xs bs f h m b u =
    let (heap', r, h') =
      release-Holds words fuel (blocks_of z s.in_flight_infos) xs bs heap f h b u in
    (heap', clean_service-release fuel z s none heap heap' [] s.in_flight_infos refl m r, h')

-- On a list with the newest segment first, every acknowledgement makes such a cut.
pub split_acked_cuts :
    (n : ℕ) (is : List InFlight)
    → NewestFirst is
    → (kept acked : List InFlight) × (is ≡ kept ++ acked) × AllFrom n kept × AllBelow n acked
split_acked_cuts n is s =
    let c = split_acked-Cut n is s in
    ((split_acked n is).0, (split_acked n is).1, sym c.whole, c.kept, c.acked)
