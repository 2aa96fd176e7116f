-- ===== src/LinkCache/Tests.antt =====
-- A table of three entries, and the theorem on it.
use smews.Base.{ℕ, ◌≡◌, refl, arith, none, [], ◌∷◌}
use smews.LinkCache.{LinkLayerEntry, Table, add_link_layer_address, get_link_layer_address}
use smews.LinkCache.Laws.{add-add-forgets}

abbrev entry : ℕ → ℕ → ℕ → LinkLayerEntry
entry ip time byte = record { ip = ip; timestamp = time; link_layer = byte ∷ [] }

abbrev full : Table
full = entry 10 7 1 ∷ entry 20 5 2 ∷ entry 30 6 3 ∷ []

replaced :
    add_link_layer_address 40 (4 ∷ []) 9 full ≡ entry 10 7 1 ∷ entry 40 5 4 ∷ entry 30 6 3 ∷ []
unfolding add_link_layer_address
replaced = refl

add-add-forgets_example :
    get_link_layer_address 40
      (add_link_layer_address 50 (5 ∷ []) 10 (add_link_layer_address 40 (4 ∷ []) 9 full))
    ≡ none
add-add-forgets_example =
    add-add-forgets 40 50 9 10 (4 ∷ []) (5 ∷ []) full (omega arith) (omega arith) (omega arith) refl
      refl
