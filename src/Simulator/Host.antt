-- ===== src/Simulator/Host.antt =====
-- The server inside the simulation: `simulator/src/host/server.rs`. What `run` of the server comes
-- to, or its cancellation, is given.
use dst_demo.Prelude.{ℕ, Option, none, some, ◌++◌}
use dst_demo.Text.{Text, codes}
use dst_demo.Text.Number.{show_ℕ}
use dst_demo.Outcome.{Outcome, ok, err, panic}

-- `HOST`, `PORT`, and the address that the server binds.
abbrev pub host_name : Text
host_name = codes "dst_demo_server"

abbrev pub port : ℕ
port = 1234

unfoldable pub bind_addr : Text
bind_addr = codes "0.0.0.0" ++ (codes ":" ++ show_ℕ port)

-- `format!("{HOST}:{PORT}")`, where the clients find it.
unfoldable pub server_addr : Text
server_addr = host_name ++ (codes ":" ++ show_ℕ port)

-- `transpose`
abbrev pub transpose : {E A : Type 0} → Option (Outcome E A) → Outcome E (Option A)
transpose none = ok none
transpose (some (ok a)) = ok (some a)
transpose (some (err e)) = err e
transpose (some panic) = panic

abbrev pub finished : {E A : Type 0} → (E → Text) → Outcome E A → Outcome Text (Unit {0})
finished show_error (ok a) = ok tt
finished show_error (err e) = err (show_error e)
finished show_error panic = panic

-- The closure of the host; `none` is `run_until_simulation_cancelled` that was cancelled.
unfoldable pub host_run :
    {E A : Type 0} → (E → Text) → Option (Outcome E A) → Outcome Text (Unit {0})
host_run show_error run = finished show_error (transpose run)
