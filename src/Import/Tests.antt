-- ===== src/Import/Tests.antt =====
-- A chain of three accounts, and a circle.
use authentication_service.Prelude.{String, List, [], ◌∷◌, some, ◌≡◌, refl}
use authentication_service.Import.Roots.{ExportRow, Ending, top, circular, by_legacy, root_of}
use authentication_service.Import.Climbing.{Climbs, Ends, root_of-Ends}

abbrev accounts : List ExportRow
accounts =
    record { id = "pic"; parent = "manager" }
    ∷ record { id = "manager"; parent = "shipper" }
    ∷ record { id = "shipper"; parent = "" }
    ∷ record { id = "left"; parent = "right" }
    ∷ record { id = "right"; parent = "left" }
    ∷ []

chain : root_of accounts "pic" ≡ some ("shipper", top)
unfolding root_of
chain = refl

circle : root_of accounts "left" ≡ some ("left", circular)
unfolding root_of
circle = refl

root_of-Ends_example :
    (root : String) × (how : Ending) × (root_of accounts "pic" ≡ some (root, how))
    × Climbs (by_legacy accounts []) "pic" root
    × Ends (by_legacy accounts []) root how
root_of-Ends_example = root_of-Ends accounts "pic" refl
