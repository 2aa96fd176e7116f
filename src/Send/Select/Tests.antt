-- ===== src/Send/Select/Tests.antt =====
-- Two connections of which the second is able to send, and the theorems on them.
use smews.Base.{◌≡◌, refl, arith, none, some, [], ◌∷◌, ◌==◌, if◌then◌else◌}
use smews.Connections.{Connection}
use smews.Connections.Samples.{client}
use smews.Connections.Ring.{Ring}
use smews.Connections.Ring.Laws.{IsRing}
use smews.Send.Select.{able_to_send, serve, choose}
use smews.Send.Select.Laws.{choose-first}

abbrev waiting : Connection
waiting = record client { output_handler = none }

abbrev two : Ring
two = record {
  all_connections = some 4;
  next = λ x. if x == 4 then 8 else 4;
  prev = λ x. if x == 4 then 8 else 4;
  conn = λ x. if x == 4 then waiting else client;
}

two-IsRing : IsRing two (4 ∷ 8 ∷ [])
two-IsRing = (refl, (refl, refl, (refl, refl)), omega arith)

choose-first_example :
    (s' : Ring) × (choose 2 0 two ≡ some (serve 8, s'))
    × IsRing s' (4 ∷ 8 ∷ [])
    × (s'.conn ≡ two.conn)
unfolding able_to_send
choose-first_example = choose-first 2 8 two (4 ∷ []) [] two-IsRing (omega arith) (refl, tt) refl
