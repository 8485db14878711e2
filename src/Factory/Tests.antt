-- ===== src/Factory/Tests.antt =====
-- Calls of the factory on which its theorems are applied.
use logrin.Base.{List, [], ◌∷◌, none, codes, ◌≡◌}
use logrin.Factory.Lookup.{Operation, gets, inits, history, handed_out, get_returns}
use logrin.Factory.{get}
use logrin.Record.{info, warning}

abbrev calls : List Operation
calls =
    gets (codes "early")
    ∷ inits info (1 ∷ []) (2 ∷ [])
    ∷ gets (codes "main")
    ∷ inits warning [] []
    ∷ gets (codes "net")
    ∷ []

get_returns_example :
    (get (codes "net") (history calls none)).1 ≡ handed_out (codes "net") (history calls none)
get_returns_example = get_returns calls (codes "net")
