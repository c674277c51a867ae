-- ===== src/Simulator/Banker/Tests.antt =====
-- A banker at concrete inputs.
use dst_demo.Prelude.{◌≡◌, refl, List, [], ◌∷◌, ◌++◌, arith, inl, inr, length, false}
use dst_demo.Prelude.Id.{ℤ, pos}
use dst_demo.Text.{codes, join, split, position, split_at, byte_len}
use dst_demo.Text.Number.{show_ℤ, parse_ℕ, parse_i32, parse_unsigned}
use dst_demo.Transaction.Display.{show_transaction, from_str, from_components}
use dst_demo.Text.Utf8.{into_bytes, from_utf8}
use dst_demo.Outcome.{ok, Sink, broken}
use dst_demo.Framing.{bytes, Reader, frame, read_loop, take_message}
use dst_demo.Framing.Chunks.{stream}
use dst_demo.Framing.Messages.{frames}
use dst_demo.Sample.{sample, read_ℤ, write_fields}
use dst_demo.Sample.Laws.{sample-CentsLaws, sample-AmountLaws}
use dst_demo.Sample.Names.{sample_names, sample_names-NameLaws}
use dst_demo.Bank
use dst_demo.Bank.{
  Bank, prepare_transaction, check_and_persist, take_id, persist, assert_follows,
  record_transaction,
}
use dst_demo.Server.{round}
use dst_demo.Server.Task.{World}
use dst_demo.Server.Replies.{incoming}
use dst_demo.Transaction.{Transaction}
use dst_demo.Simulator.Banker.Exchange.{interact-round}
use dst_demo.Simulator.Reply.{read_reply}
use dst_demo.Server.Requests
use dst_demo.Server.Requests.{texts, respond}
use dst_demo.Simulator.BankerPlan
use dst_demo.Simulator.BankerPlan.{BankerInteractionPlan}
use dst_demo.Simulator.Banker.{created_amounts, interact, ask_create, send_action}
use dst_demo.Simulator.Banker.Requests.{request, IsAnswered}
use dst_demo.Simulator.Banker.Served.{interact-Succeeds}
use dst_demo.Simulator.Banker.Retries.{perform_interaction, perform_interaction-finished}
use dst_demo.Simulator.Connection.{
  TcpStream, open_stream, send_message, receive, Attempt, refused, connected, finished, connections,
}

abbrev silent : Sink
silent = record { content = []; fates = [] }

-- A bank that holds one transaction, which the plan had created.
abbrev bank : Bank ℤ
bank = record {
  file = silent;
  transactions = record { id = pos 1; amount = pos 250; created_at = 1000 } ∷ [];
  current_id = pos 2;
  balance = pos 250;
  ticks = 1;
}

abbrev plan : BankerInteractionPlan ℤ
plan = record BankerPlan.new {
  step = 2;
  plan =
      BankerPlan.create_transaction (pos 250)
      ∷ BankerPlan.list_transactions
      ∷ BankerPlan.create_transaction (pos 7)
      ∷ [];
}

-- The server's list, in two chunks.
abbrev listed : Reader
listed = bytes (codes "id=1 created_at=") ∷ bytes (codes "1000 amount=$250" ++ 0 ∷ []) ∷ []

abbrev fresh : TcpStream
fresh = open_stream listed []

wire : Unit {0}
unfolding frames frame texts into_bytes stream request IsAnswered respond created_amounts join
    show_transaction show_ℤ
wire = tt

interact-Succeeds_example :
    (r : Reader) × (interact sample sample_names plan BankerPlan.list_transactions fresh
      ≡ (ok tt, open_stream r ([] ++ frames (texts sample_names Requests.list))))
unfolding wire
interact-Succeeds_example =
    interact-Succeeds sample sample_names sample-CentsLaws sample-AmountLaws plan
      BankerPlan.list_transactions Requests.list bank [] fresh refl ((omega arith, omega arith), tt)
      (inl (refl, tt)) (listed, [], refl, tt, refl, refl) refl

-- The first attempt is refused, the first write of the second fails, and the third ends early.
abbrev lost : List Attempt
lost =
    refused
    ∷ connected
        (record { reader = listed; writer = record { content = []; fates = broken 3 ∷ [] } })
    ∷ connected (open_stream (bytes (codes "id=1 crea") ∷ []) [])
    ∷ []

perform_interaction-finished_example :
    (used : List TcpStream) × (r : Reader) × (perform_interaction sample sample_names plan
        BankerPlan.list_transactions
        (lost ++ connected fresh ∷ refused ∷ [])
      ≡ (finished, used ++ open_stream r ([] ++ frames (texts sample_names Requests.list)) ∷ []))
    × (length used ≡ connections lost)
unfolding wire
perform_interaction-finished_example =
    perform_interaction-finished sample sample_names sample-CentsLaws sample-AmountLaws plan
      BankerPlan.list_transactions Requests.list bank [] lost (refused ∷ []) fresh refl
      (tt, (inl (3, [], refl), (inr (refl, ground arith, omega arith), tt)))
      ((omega arith, omega arith), tt) (inl (refl, tt)) (listed, [], refl, tt, refl, refl) refl

-- A bank without transactions, and a task of the server in front of it.
abbrev opened : Bank ℤ
opened = record { file = silent; transactions = []; current_id = pos 1; balance = pos 0; ticks = 0 }

abbrev task : World ℤ
task = record {
  bank = opened;
  message = [];
  reader = bytes (codes "CREATE_TRANS") ∷ bytes (codes "ACTION" ++ 0 ∷ codes "250" ++ 0 ∷ []) ∷ [];
  writer = silent;
  cancelled = false;
}

abbrev prompt : Reader
prompt = bytes (codes "Enter the transaction amount:" ++ 0 ∷ []) ∷ []

abbrev reply : Reader
reply = bytes (codes "id=1 created_at=1000 amount=$250" ++ 0 ∷ []) ∷ []

abbrev created : Transaction ℤ
created = record { id = pos 1; amount = pos 250; created_at = 1000 }

exchange : Unit {0}
unfolding wire read_ℤ Bank.create_transaction prepare_transaction check_and_persist take_id persist
    assert_follows record_transaction write_fields interact ask_create send_message send_action
    receive read_reply read_loop from_utf8 position take_message split_at byte_len from_str
    from_components
exchange = tt

interact-round_example :
    (let result =
        interact sample sample_names plan
          (BankerPlan.create_transaction (pos 250))
          (open_stream (prompt ++ reply) []) in
      let served = round sample sample_names task in
      let answer = respond sample (Requests.create (codes "250")) opened in
      (result.0 ≡ ok tt)
      × (served.0 ≡ answer.ended)
      × (served.1.writer.content ≡ [] ++ frames answer.replies)
      × (served.1.bank ≡ answer.bank)
      × (incoming served.1 ≡ []))
unfolding exchange parse_ℕ split parse_i32 parse_unsigned
interact-round_example =
    interact-round sample sample_names sample-CentsLaws sample-AmountLaws plan
      (BankerPlan.create_transaction (pos 250)) (Requests.create (codes "250")) []
      (open_stream (prompt ++ reply) []) task sample_names-NameLaws refl tt
      (
        pos 250,
        created,
        (Bank.create_transaction sample (pos 250) opened).1,
        refl,
        refl,
        (omega arith, omega arith),
      )
      refl refl refl (prompt, reply, refl, tt, refl, (reply, [], refl, tt, refl, refl)) refl

abbrev beginning : BankerInteractionPlan ℤ
beginning = record plan { step = 0 }
