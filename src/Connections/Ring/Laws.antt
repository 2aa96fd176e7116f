-- ===== src/Connections/Ring/Laws.antt =====
-- The circular list as a plain list: a new connection goes behind the last, and taking one out
-- makes the one behind it the first.
use smews.Base.{
  ℕ, ◌≡◌, ◌≢◌, ◌⊎◌, refl, sym, ap, ==_refl, ==_iff, Bool-cases, inl, inr, ne-==, ◌∙◌, arith, true,
  false, none, some, List, [], ◌∷◌, ◌++◌, ◌==◌, if◌then◌else◌,
}
use mathlib.Core.List.{append-nil}
use smews.Connections.{Connection}
use smews.Connections.Ring.{Ring, put, insert, unlink}

abbrev pub NotMem : ℕ → List ℕ → Type 0
NotMem p [] = Unit {0}
NotMem p (x ∷ xs) = (p ≢ x) × NotMem p xs

abbrev pub Distinct : List ℕ → Type 0
Distinct [] = Unit {0}
Distinct (x ∷ xs) = NotMem x xs × Distinct xs

-- From `a` the links lead through `xs` to `b`, and back.
abbrev pub Links : (ℕ → ℕ) → (ℕ → ℕ) → ℕ → List ℕ → ℕ → Type 0
Links nx pv a [] b = (nx a ≡ b) × (pv b ≡ a)
Links nx pv a (x ∷ xs) b = (nx a ≡ x) × (pv x ≡ a) × Links nx pv x xs b

abbrev pub Cycle : (ℕ → ℕ) → (ℕ → ℕ) → List ℕ → Type 0
Cycle nx pv [] = Unit {0}
Cycle nx pv (x ∷ xs) = Links nx pv x xs x

-- The ring holds the connections at these addresses, in this order.
abbrev pub IsRing : Ring → List ℕ → Type 0
IsRing s [] = s.all_connections ≡ none
IsRing s (x ∷ xs) = (s.all_connections ≡ some x) × Links s.next s.prev x xs x × Distinct (x ∷ xs)

abbrev last : ℕ → List ℕ → ℕ
last a [] = a
last a (x ∷ xs) = last x xs

module _ {ℓ} {A : Type ℓ} (f : ℕ → A) (a : ℕ) (v : A) where
  pub put_self : put f a v a ≡ v
  unfolding put
  put_self = ground arith

  pub put-ne : (x : ℕ) → x ≢ a → put f a v x ≡ f x
  unfolding put
  put-ne x ne = ground arith

pub put-same {ℓ} : {A : Type ℓ} (f : ℕ → A) (a : ℕ) → put f a (f a) ≡ f
unfolding put
put-same f a = λ i x. same x (Bool-cases (x == a)) i
  where
    same : (x : ℕ) → ((x == a) ≡ true) ⊎ ((x == a) ≡ false) → (if x == a then f a else f x) ≡ f x
    same x (inl e) = rw e (ap f (sym ((==_iff x a).0 e)))
    same x (inr e) = rw e refl

ne_last : (p a : ℕ) (xs : List ℕ) → NotMem p (a ∷ xs) → p ≢ last a xs
ne_last p a [] h = h.0
ne_last p a (x ∷ xs) h = ne_last p x xs h.1

Links-last : (nx pv : ℕ → ℕ) (a b : ℕ) (xs : List ℕ) → Links nx pv a xs b → pv b ≡ last a xs
Links-last nx pv a b [] l = l.1
Links-last nx pv a b (x ∷ xs) l = Links-last nx pv x b xs l.2

module _ (nx pv : ℕ → ℕ) where
  Links-snoc :
      (p b a : ℕ) (xs : List ℕ)
      → Links nx pv a xs b
      → NotMem p (a ∷ xs)
      → p ≢ b
      → Distinct (a ∷ xs)
      → NotMem b xs
      → Links (put (put nx (last a xs) p) p b) (put (put pv p (last a xs)) b p) a (xs ++ (p ∷ [])) b
  Links-snoc p b a [] l np ne d nb = (
    put-ne (put nx a p) p b a (λ e. np.0 (sym e)) ∙ put_self nx a p,
    put-ne (put pv p a) b p p ne ∙ put_self pv p a,
    (put_self (put nx a p) p b, put_self (put pv p a) b p),
  )
  Links-snoc p b a (x ∷ xs) l np ne d nb = (
    put-ne (put nx (last x xs) p) p b a (λ e. np.0 (sym e))
        ∙ put-ne nx (last x xs) p a (ne_last a x xs d.0)
        ∙ l.0,
    put-ne (put pv p (last x xs)) b p x (λ e. nb.0 (sym e))
        ∙ put-ne pv p (last x xs) x (λ e. np.1.0 (sym e))
        ∙ l.1,
    Links-snoc p b x xs l.2 np.1 ne d.1 nb.1,
  )

  -- The last is joined to `c` instead of `b`.
  Links-close :
      (a b c : ℕ) (xs : List ℕ)
      → Links nx pv a xs b
      → Distinct (a ∷ xs)
      → NotMem c xs
      → Links (put nx (last a xs) c) (put pv c (last a xs)) a xs c
  Links-close a b c [] l d nc = (put_self nx a c, put_self pv c a)
  Links-close a b c (x ∷ xs) l d nc = (
    put-ne nx (last x xs) c a (ne_last a x xs d.0) ∙ l.0,
    put-ne pv c (last x xs) x (λ e. nc.0 (sym e)) ∙ l.1,
    Links-close x b c xs l.2 d.1 nc.1,
  )

  pub Links-append :
      (a p b : ℕ) (xs ys : List ℕ)
      → Links nx pv a xs p
      → Links nx pv p ys b
      → Links nx pv a (xs ++ p ∷ ys) b
  Links-append a p b [] ys l m = (l.0, l.1, m)
  Links-append a p b (x ∷ xs) ys l m = (l.0, l.1, Links-append x p b xs ys l.2 m)

  Links-split :
      (a p b : ℕ) (xs ys : List ℕ)
      → Links nx pv a (xs ++ p ∷ ys) b
      → Links nx pv a xs p × Links nx pv p ys b
  Links-split a p b [] ys l = ((l.0, l.1), l.2)
  Links-split a p b (x ∷ xs) ys l = let (u, v) = Links-split x p b xs ys l.2 in ((l.0, l.1, u), v)

  -- A cycle may be read from any of its members on.
  pub Links-rotate :
      (p : ℕ) (ys zs : List ℕ) → Cycle nx pv (ys ++ p ∷ zs) → Links nx pv p (zs ++ ys) p
  Links-rotate p [] zs l = rw append-nil l
  Links-rotate p (y ∷ ys) zs l =
      let (u, v) = Links-split y p y ys zs l in Links-append p y p zs ys v u

  -- The links with `p` taken out.
  abbrev next' : ℕ → ℕ → ℕ
  next' p = put nx (pv p) (nx p)

  abbrev prev' : ℕ → ℕ → ℕ
  prev' p = put pv (next' p p) (pv p)

  Links-unlink :
      (p q : ℕ) (qs : List ℕ)
      → Links nx pv p (q ∷ qs) p
      → Distinct (p ∷ q ∷ qs)
      → (next' p p ≡ q) × Links (next' p) (prev' p) q qs q
  Links-unlink p q qs l d =
      let at : pv p ≡ last q qs = Links-last nx pv q p qs l.2 in
      let skip : p ≢ last q qs = ne_last p q qs d.0 in
      let is_q : next' p p ≡ q = put-ne nx (pv p) (nx p) p (rw at skip) ∙ l.0 in
      (is_q, rw (is_q, at, l.0) (Links-close q p q qs l.2 d.1 d.1.0))

NotMem-append : (a : ℕ) (xs ys : List ℕ) → NotMem a xs → NotMem a ys → NotMem a (xs ++ ys)
NotMem-append a [] ys u v = v
NotMem-append a (x ∷ xs) ys u v = (u.0, NotMem-append a xs ys u.1 v)

NotMem-split :
    (a p : ℕ) (ys zs : List ℕ) → NotMem a (ys ++ p ∷ zs) → NotMem a ys × (a ≢ p) × NotMem a zs
NotMem-split a p [] zs h = (tt, h.0, h.1)
NotMem-split a p (y ∷ ys) zs h = let (u, v, w) = NotMem-split a p ys zs h.1 in ((h.0, u), v, w)

Distinct-snoc :
    (y : ℕ) (zs ys : List ℕ) → Distinct (zs ++ ys) → NotMem y (zs ++ ys) → Distinct (zs ++ y ∷ ys)
Distinct-snoc y [] ys d n = (n, d)
Distinct-snoc y (z ∷ zs) ys d n =
    (NotMem-insert z y zs ys d.0 (λ e. n.0 (sym e)), Distinct-snoc y zs ys d.1 n.1)
  where
    NotMem-insert :
        (z y : ℕ) (zs ys : List ℕ) → NotMem z (zs ++ ys) → z ≢ y → NotMem z (zs ++ y ∷ ys)
    NotMem-insert z y [] ys h ne = (ne, h)
    NotMem-insert z y (x ∷ xs) ys h ne = (h.0, NotMem-insert z y xs ys h.1 ne)

-- Taking the front of a list to its end keeps its members distinct.
pub Distinct-rotate : (p : ℕ) (ys zs : List ℕ) → Distinct (ys ++ p ∷ zs) → Distinct (p ∷ zs ++ ys)
Distinct-rotate p [] zs d = rw append-nil d
Distinct-rotate p (y ∷ ys) zs d =
    let r = Distinct-rotate p ys zs d.1 in
    let (u, v, w) = NotMem-split y p ys zs d.0 in
    Distinct-snoc y (p ∷ zs) ys r (v, NotMem-append y zs ys w u)

pub Distinct-end : (p : ℕ) (xs : List ℕ) → NotMem p xs → Distinct xs → Distinct (xs ++ (p ∷ []))
Distinct-end p xs n d = Distinct-snoc p xs [] (rw append-nil d) (rw append-nil n)

insert-head :
    (p head : ℕ) (c : Connection) (s : Ring)
    → s.all_connections ≡ some head
    → insert p c s ≡ record s {
      next = put (put s.next (s.prev head) p) p head;
      prev = put (put s.prev p (s.prev head)) head p;
      conn = put s.conn p c;
    }
unfolding insert
insert-head p head c s e = rw (insert, e, ==_refl p, e) refl

insert-none :
    (p : ℕ) (c : Connection) (s : Ring)
    → s.all_connections ≡ none
    → insert p c s ≡ record {
      all_connections = some p;
      next = put s.next p p;
      prev = put s.prev p p;
      conn = put s.conn p c;
    }
unfolding insert
insert-none p c s e = rw (insert, e) refl

pub ring-Cycle : (s : Ring) (xs : List ℕ) → IsRing s xs → Cycle s.next s.prev xs
ring-Cycle s [] h = tt
ring-Cycle s (x ∷ xs) h = h.1

pub ring-Distinct : (s : Ring) (xs : List ℕ) → IsRing s xs → Distinct xs
ring-Distinct s [] h = tt
ring-Distinct s (x ∷ xs) h = h.2

unlink_fields :
    (p : ℕ) (s : Ring)
    → unlink p s ≡ record s {
      all_connections =
          if p == next' s.next s.prev p p then none else some (next' s.next s.prev p p);
      next = next' s.next s.prev p;
      prev = prev' s.next s.prev p;
    }
unfolding unlink
unlink_fields p s = refl

-- The connection `p` is read as the first.
unlink-rest :
    (p : ℕ) (s : Ring) (qs : List ℕ)
    → Links s.next s.prev p qs p
    → Distinct (p ∷ qs)
    → IsRing (unlink p s) qs
unlink-rest p s [] l d =
    let same : (p == next' s.next s.prev p p) ≡ true =
      rw (l.1, put_self s.next p (s.next p), l.0) (==_refl p) in
    rw (unlink_fields p s, same) refl
unlink-rest p s (q ∷ qs) l d =
    let (is_q, links) = Links-unlink s.next s.prev p q qs l d in
    let differ : (p == q) ≡ false = ne-== p q d.0.0 in
    rw (unlink_fields p s) (rw (is_q, differ) refl, links, d.1)

-- A connection at a new address goes behind all others, and is stored there.
pub insert-append :
    (p : ℕ) (c : Connection) (s : Ring) (xs : List ℕ)
    → IsRing s xs
    → NotMem p xs
    → IsRing (insert p c s) (xs ++ (p ∷ []))
      × ((insert p c s).conn p ≡ c)
      × ((y : ℕ) → y ≢ p → (insert p c s).conn y ≡ s.conn y)
insert-append p c s [] h n = (insert_first h, stored.0, stored.1)
  where
    insert_first : s.all_connections ≡ none → IsRing (insert p c s) (p ∷ [])
    insert_first e =
        rw (insert-none p c s e) (refl, (put_self s.next p p, put_self s.prev p p), (tt, tt))

    stored : ((insert p c s).conn p ≡ c) × ((y : ℕ) → y ≢ p → (insert p c s).conn y ≡ s.conn y)
    stored = rw (insert-none p c s h) (put_self s.conn p c, put-ne s.conn p c)
insert-append p c s (x ∷ xs) h n =
    rw (insert-head p x c s h.0, Links-last s.next s.prev x x xs h.1)
      (
        (h.0, Links-snoc s.next s.prev p x x xs h.1 n n.0 h.2 h.2.0, Distinct-end p (x ∷ xs) n h.2),
        put_self s.conn p c,
        put-ne s.conn p c,
      )

-- Taking a connection out makes the one behind it the first, and keeps the order of the others.
pub unlink-rotate :
    (p : ℕ) (s : Ring) (ys zs : List ℕ) → IsRing s (ys ++ p ∷ zs) → IsRing (unlink p s) (zs ++ ys)
unlink-rotate p s ys zs h =
    unlink-rest p s (zs ++ ys) (Links-rotate s.next s.prev p ys zs (ring-Cycle s (ys ++ p ∷ zs) h))
      (Distinct-rotate p ys zs (ring-Distinct s (ys ++ p ∷ zs) h))
