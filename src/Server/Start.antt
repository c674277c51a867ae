-- ===== src/Server/Start.antt =====
-- The start of the server's process: `main` of `server/src/main.rs` behind its log. The signal
-- handler and the runtime are a library's.
use dst_demo.Prelude.{ℕ, Bool, true, false, Option, none, some, List, ◌++◌}
use dst_demo.Text.{Text, codes}
use dst_demo.Outcome.{Outcome, err, Sink}
use dst_demo.Platform.{Platform}
use dst_demo.Server.Actions.{ActionNames}
use dst_demo.Server.Task.{Error, async}
use dst_demo.Server.Clients.{Server, Step}
use dst_demo.Server.Run.{run}

-- `std::env::var(…).unwrap_or_else(…)`
abbrev pub var_or : Option Text → Text → Text
var_or none default = default
var_or (some value) default = value

-- `ADDR` and `PORT`
unfoldable pub address : Option Text → Option Text → Text
address addr port = var_or addr (codes "0.0.0.0") ++ (codes ":" ++ var_or port (codes "3000"))

module _ {D : Type 0} (p : Platform D) (names : ActionNames) where
  -- Whether the runtime could be built, and which addresses can be bound.
  unfoldable pub main :
      Bool
      → (Text → Bool)
      → Option Text
      → Option Text
      → ℕ
      → Option Sink
      → List Step
      → Outcome Error (Server D)
  main false binds addr port ticks file xs = err async
  main true binds addr port ticks file xs = run p names (binds (address addr port)) ticks file xs
