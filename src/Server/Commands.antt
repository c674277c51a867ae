-- ===== src/Server/Commands.antt =====
-- What the clients' tasks do to the bank: calls of the trait `Bank`, and nothing else.
use dst_demo.Prelude.{refl, [], ◌∷◌}
use dst_demo.Platform.{Platform}
use dst_demo.Bank.Sound.{run}
use dst_demo.Bank.Serves.{Serves, Serves-trans}
use dst_demo.Server.{round}
use dst_demo.Server.Actions.{ActionNames}
use dst_demo.Server.Task.{World, on_bank, read, write}
use dst_demo.Server.Chains.{Rules, round_keeps}

module _ {D : Type 0} (p : Platform D) where
  rules : Rules p (λ v w. Serves p v.bank w.bank)
  unfolding write read on_bank Serves run
  rules = record {
    reflexive = λ w. ([], refl);
    transitive = λ a b c. Serves-trans p a.bank b.bank c.bank;
    writes = λ m w. ([], refl);
    reads = λ w. ([], refl);
    cancels = λ w. ([], refl);
    calls = λ c m h w. (c ∷ [], h w.bank);
  }

  -- Whatever a client sends and however the round ends, the bank only sees calls of its trait.
  pub round-Serves : (names : ActionNames) (w : World D) → Serves p w.bank (round p names w).1.bank
  round-Serves names w = round_keeps p (λ v w. Serves p v.bank w.bank) rules names w
