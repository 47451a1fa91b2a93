-- ===== src/Examples/Monitors.antt =====
-- The monitor of the table at a concrete input.
use ida_swarm.Base.{List, [], ◌∷◌, none, some, true, false, codes}
use ida_swarm.Tracker.{Tracker}
use ida_swarm.Tracker.Monitor.{Move, records, polls}
use ida_swarm.Examples.Calls.{texts, willing}

abbrev two_rounds : List (Move texts)
two_rounds =
    polls true (some 0)
    ∷ records willing 50 (codes "a1") (codes "set_name") 4096 (codes "main")
    ∷ polls false none
    ∷ []
