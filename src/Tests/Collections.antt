-- ===== src/Tests/Collections.antt =====
-- Runs of an ordered collection.
use sysmel.OrderedCollection.Access.{at_index-elements}
use sysmel.OrderedCollection.Growth.{IsValid, IsSized, elements, add-elements}
use sysmel.OrderedCollection.{OrderedCollection, add, at_index}
use sysmel.Prelude.{◌≡◌, arith, some, none, [], ◌∷◌, ◌++◌, get_elem?}
use sysmel.Run.{ok, err, index_out_of_bounds}

-- Four elements that fill the storage.
abbrev full : OrderedCollection
full = record { size = 4; storage = 7 ∷ 8 ∷ 9 ∷ 10 ∷ [] }

full-IsValid : IsValid full
unfolding IsValid
full-IsValid = omega arith

full-IsSized : IsSized full
unfolding IsSized
full-IsSized = omega arith

add-elements_example :
    (d : OrderedCollection) × (add full 11 ≡ ok d)
    × IsValid d
    × IsSized d
    × (elements d ≡ elements full ++ 11 ∷ [])
add-elements_example = add-elements full 11 full-IsValid full-IsSized (omega arith)

at_index-elements_example :
    at_index full 5
    ≡ elim (get_elem? (elements full) 5) [ some x ↦ ok x | none ↦ err index_out_of_bounds ]
at_index-elements_example = at_index-elements full 5 full-IsValid
