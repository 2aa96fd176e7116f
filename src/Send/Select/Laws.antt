-- ===== src/Send/Select/Laws.antt =====
-- Every connection gets its turn.
use smews.Base.{ℕ, ◌≡◌, ◌≤◌, refl, ap, ◌∙◌, true, false, some, List, [], ◌∷◌, ◌++◌, length}
use smews.Connections.{Connection}
use smews.Connections.Ring.{Ring}
use smews.Connections.Ring.Walk.{search, round_robin, first, search-first, round_robin-rotate}
use smews.Connections.Ring.Laws.{IsRing}
use smews.Send.Select.{able_to_send, serve, choose}

abbrev pub NoneAble : (ℕ → Connection) → List ℕ → Type 0
NoneAble conn [] = Unit {0}
NoneAble conn (x ∷ xs) = (able_to_send (conn x) ≡ false) × NoneAble conn xs

first-able :
    (conn : ℕ → Connection) (xs ys : List ℕ) (p : ℕ)
    → NoneAble conn xs
    → able_to_send (conn p) ≡ true
    → first able_to_send conn (xs ++ p ∷ ys) ≡ some p
first-able conn [] ys p n e = rw e refl
first-able conn (x ∷ xs) ys p n e = rw n.0 (first-able conn xs ys p n.1 e)

choose-found :
    (fuel p : ℕ) (s : Ring)
    → search fuel able_to_send s ≡ some (some p)
    → choose fuel 0 s ≡ some (serve p, round_robin p s)
unfolding choose
choose-found fuel p s e = rw e refl

round_robin-conn : (p : ℕ) (s : Ring) → (round_robin p s).conn ≡ s.conn
unfolding round_robin
round_robin-conn p s = refl

-- With no reset to send, the first connection of the ring that is able to send is served, and it goes behind
-- all others, whose order stays: those in front of it and those behind it come first next time.
pub choose-first :
    (fuel p : ℕ) (s : Ring) (xs ys : List ℕ)
    → IsRing s (xs ++ p ∷ ys)
    → length (xs ++ p ∷ ys) ≤ fuel
    → NoneAble s.conn xs
    → able_to_send (s.conn p) ≡ true
    → (s' : Ring) × (choose fuel 0 s ≡ some (serve p, s'))
      × IsRing s' (ys ++ xs ++ p ∷ [])
      × (s'.conn ≡ s.conn)
choose-first fuel p s xs ys h f n e =
    let found =
      search-first fuel able_to_send s (xs ++ p ∷ ys) h f
      ∙ ap some (first-able s.conn xs ys p n e) in
    (
      round_robin p s,
      choose-found fuel p s found,
      round_robin-rotate p s xs ys h,
      round_robin-conn p s,
    )
