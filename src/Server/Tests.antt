-- ===== src/Server/Tests.antt =====
-- The server on the concrete platform, with the actions' names in capitals.
use dst_demo.Prelude.{◌≢◌, refl, none, [], ◌∷◌, ◌++◌, arith, false}
use dst_demo.Prelude.Id.{ℤ, pos}
use dst_demo.Text.{codes}
use dst_demo.Text.Utf8.{into_bytes}
use dst_demo.Outcome.{Sink}
use dst_demo.Framing.{bytes, Reader, frame}
use dst_demo.Framing.Size.{pending}
use dst_demo.Framing.Chunks.{stream}
use dst_demo.Framing.Messages.{frames}
use dst_demo.Sample.{sample}
use dst_demo.Sample.Names.{sample_names, sample_names-NameLaws}
use dst_demo.Bank.{Bank}
use dst_demo.Bank.Sound.{IsSound}
use dst_demo.Server.{serve}
use dst_demo.Server.Task.{World}
use dst_demo.Server.Requests.{create, texts, IsRequest, respond_all}
use dst_demo.Server.Session.{all_texts, Serviced, serve-respond_all}
use dst_demo.Server.Fuel.{size, serve_ends}
use dst_demo.Server.Clients.{Server, accept, turn, steps, steps-IsSound}

abbrev silent : Sink
silent = record { content = []; fates = [] }

abbrev empty_bank : Bank ℤ
empty_bank = record {
  file = silent;
  transactions = [];
  current_id = pos 1;
  balance = pos 0;
  ticks = 0;
}

-- A client's bytes, in two chunks that the network has cut anywhere.
abbrev conversation : Reader
conversation =
    bytes (codes "CREATE_TRANSAC") ∷ bytes (codes "TION" ++ 0 ∷ codes "250" ++ 0 ∷ []) ∷ []

abbrev start : World ℤ
start = record {
  bank = empty_bank;
  message = [];
  reader = conversation;
  writer = silent;
  cancelled = false;
}

wire : Unit {0}
unfolding frames frame texts all_texts IsRequest into_bytes stream size pending
wire = tt

serve-respond_all_example :
    Serviced sample sample_names start
      (serve sample sample_names 2 start)
      (respond_all sample (create (codes "250") ∷ []) empty_bank)
unfolding wire
serve-respond_all_example =
    serve-respond_all sample sample_names (create (codes "250") ∷ []) 2 start sample_names-NameLaws
      ((omega arith, ground arith), tt) refl refl (omega arith)

serve_ends_example : (serve sample sample_names 24 start).0 ≢ none
unfolding wire
serve_ends_example = serve_ends sample sample_names 24 start (omega arith)

abbrev idle : Server ℤ
idle = record { bank = empty_bank; clients = []; cancelled = false }

steps-IsSound_example :
    IsSound sample empty_bank
      (steps sample sample_names
        (accept conversation silent ∷ accept conversation silent ∷ turn 1 ∷ turn 0 ∷ [])
        idle).bank
steps-IsSound_example =
    steps-IsSound sample sample_names
      (accept conversation silent ∷ accept conversation silent ∷ turn 1 ∷ turn 0 ∷ []) idle tt tt
