-- ===== src/Bank/Interleaved/Tests.antt =====
-- Two tasks on the concrete platform: task 0 creates a transaction, task 1 waits to create another.
use dst_demo.Prelude.{◌⊎◌, ◌≡◌, refl, none, some, [], ◌∷◌}
use dst_demo.Prelude.Id.{ℤ, pos}
use dst_demo.Text.Utf8.{into_bytes}
use dst_demo.Text.Number.{show_ℤ, parse_ℕ}
use dst_demo.Sample.{sample, write_fields, read_fields, read_ℤ}
use dst_demo.Outcome.{ok}
use dst_demo.Text.{codes, split}
use dst_demo.Text.Utf8.{from_utf8}
use dst_demo.Sample.Laws.{sample-JsonLaws, sample-ClockLaws, sample-TotalLaws}
use dst_demo.Bank.Open.{next_id, new, read_lines, non_empty}
use dst_demo.Bank.Recovery.{journal}
use dst_demo.Bank.Healthy.{IsHealthy}
use dst_demo.Bank.Killed.Reopens.{Reopens}
use dst_demo.Bank.Interleaved.Killed.{Survives}
use dst_demo.Bank.Interleaved.Lives.{first, again, left, OverflowsInLife, Lives-Survives}
use dst_demo.Bank.{
  Bank, find, assert_follows, take_id, persist, check_and_persist, prepare_transaction,
  record_transaction, create_transaction,
}
use dst_demo.Bank.Serves.{Serves}
use dst_demo.Bank.Stages.{waiting, taken, advance}
use dst_demo.Bank.Interleaved.{
  System, place, moved, create, acquire, work, init, Reach, start, later,
}
use dst_demo.Bank.Interleaved.Locked.{Reach-Serves}
use dst_demo.Bank.Interleaved.Readers.{Observes, Reach-Observes}

calls : Unit {0}
unfolding create_transaction prepare_transaction record_transaction check_and_persist persist
    take_id assert_follows find into_bytes write_fields show_ℤ advance
calls = tt

abbrev empty : Bank ℤ
empty = record {
  file = record { content = []; fates = [] };
  transactions = [];
  current_id = pos 1;
  balance = pos 0;
  ticks = 0;
}

abbrev both_waiting : System ℤ
both_waiting =
    place sample (place sample (init sample empty) 0 (waiting (pos 250))) 1 (waiting (pos 7))

-- Task 0 with the lock, and its next steps.
abbrev step_0 : System ℤ
step_0 = record (place sample both_waiting 0 (taken (pos 250))) { owner = some 0 }

abbrev next : System ℤ → System ℤ
next s = moved sample s 0 (advance sample (s.stage 0) s.bank)

abbrev about_to_push : System ℤ
about_to_push = next (next (next (next step_0)))

abbrev pushed : System ℤ
pushed = next about_to_push

ahead : about_to_push.bank.balance ≡ pos 250
unfolding calls
ahead = refl

waits : Reach sample empty step_0
waits =
    later (later (later start (create 0 (pos 250) refl refl)) (create 1 (pos 7) refl refl))
      (acquire 0 (pos 250) refl refl refl)

reached : Reach sample empty about_to_push
unfolding calls
reached =
    later (later (later (later waits (work 0 refl refl)) (work 0 refl refl)) (work 0 refl refl))
      (work 0 refl refl)

Reach-Observes_example : Observes sample empty about_to_push
Reach-Observes_example = Reach-Observes sample empty about_to_push reached tt tt

reached_end : Reach sample empty pushed
unfolding calls
reached_end = later reached (work 0 refl refl)

free_end : pushed.owner ≡ none
unfolding calls
free_end = refl

Reach-Serves_example : Serves sample empty pushed.bank
Reach-Serves_example = Reach-Serves sample empty pushed reached_end free_end

empty-IsHealthy : IsHealthy sample sample-ClockLaws sample-TotalLaws empty
unfolding calls journal next_id
empty-IsHealthy = record {
  stored = record { text = []; journaled = refl; file = refl; in_step = refl };
  steady = refl;
  past = tt;
}

-- The line of task 0 is in the file when the server is killed.
abbrev reopened : Bank ℤ
reopened = record {
  file = record { content = codes "1,1000,250\n"; fates = [] };
  transactions = record { id = pos 1; amount = pos 250; created_at = 1000 } ∷ [];
  current_id = pos 2;
  balance = pos 0;
  ticks = 1;
}

opened_again :
    new sample about_to_push.bank.ticks (some (left sample about_to_push.bank)) ≡ ok reopened
unfolding calls next_id new read_lines non_empty read_fields read_ℤ from_utf8 split parse_ℕ
opened_again = refl

-- The server after one more start, with a task that waits for the lock.
abbrev waiting_again : System ℤ
waiting_again = place sample (init sample reopened) 2 (waiting (pos 9))

Lives-Survives_example :
    Reopens sample (Survives sample sample-ClockLaws empty reopened) 1 (left sample reopened)
    ⊎ OverflowsInLife sample sample-ClockLaws sample-TotalLaws empty
Lives-Survives_example =
    Lives-Survives sample sample-JsonLaws sample-ClockLaws sample-TotalLaws empty reopened
      waiting_again empty-IsHealthy tt tt (again first reached opened_again)
      (later start (create 2 (pos 9) refl refl))
