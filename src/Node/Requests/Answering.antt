-- ===== src/Node/Requests/Answering.antt =====
-- What a client of a node is answered.
use cornus.Base.{ℕ, String, List}
use cornus.Handler.Prog.{RequestType}
use cornus.Node.Handlers.{Node, Event, run_events}

-- Other threads do the events `es` on the node, and the coordinator then decides by the messages that it
-- has been given.
abbrev pub meanwhile_events : List Event → (List RequestType → String) → ℕ → Node → String × Node
meanwhile_events es decide address n =
    (decide ((run_events n es).store address).messages, run_events n es)
