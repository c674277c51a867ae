-- ===== src/Bank/Healthy.antt =====
-- A bank whose writes and clock never fail stays stored, whatever calls are made, unless the sum of
-- the balance overflows.
use dst_demo.Prelude.{
  ℕ, suc, ◌≤◌, ◌≡◌, refl, sym, ◌∙◌, ap, arith, inl, inr, ◌⊎◌, Option, none, some, List, [], ◌∷◌,
  ◌++◌, All, All-append, get_last?, Option-cases,
}
use mathlib.Core.Path.{subst}
use dst_demo.Prelude.Id.{ℤ, add_one}
use mathlib.Core.Option.{some-injective}
use dst_demo.Text.Utf8.{into_bytes}
use dst_demo.Outcome.{write_all}
use dst_demo.Transaction.{Transaction}
use dst_demo.Platform.{Platform}
use dst_demo.Platform.Laws.{ClockLaws, TotalLaws}
use dst_demo.Bank.{Bank, stamp, create_transaction, list_transactions, get_transaction, get_balance}
use dst_demo.Bank.Open.{next_id}
use dst_demo.Bank.Create.{Follows}
use dst_demo.Bank.Success.{Ready, created, create_transaction-created}
use dst_demo.Bank.Recovery.{IsStored, create_transaction-IsStored}
use dst_demo.Bank.CurrentId.{create_transaction_overflow}
use dst_demo.Bank.Void.{void_transaction-state}
use dst_demo.Bank.Serves.{Serves, Serves-refl, Serves-trans, Serves-call}
use dst_demo.Bank.Sound.{Command, list, get, create, void, balance, after, run}

module _ {D : Type 0} (p : Platform D) (clock : ClockLaws p) where
  pub later_past :
      (m n : ℕ) (ts : List (Transaction D))
      → m ≤ n
      → All (λ t. t.created_at ≤ clock.time m) ts
      → All (λ t. t.created_at ≤ clock.time n) ts
  later_past m n [] le h = tt
  later_past m n (t ∷ ts) le h =
      (omega (arith, h.0, clock.forward m n le), later_past m n ts le h.1)

module _ {D : Type 0} (p : Platform D) (clock : ClockLaws p) (total : TotalLaws p) where
  -- The file holds the log, all further writes succeed, and no entry is later than the clock.
  pub record IsHealthy (b : Bank D) : Type 0 where
    pub stored : IsStored p b
    pub steady : b.file.fates ≡ []
    pub past : All (λ t. t.created_at ≤ clock.time b.ticks) b.transactions

  -- The second bank came from the first by calls, of which one of `create_transaction` has taken an
  -- identifier of a healthy bank and let the sum of the balance overflow.
  abbrev pub Overflowed : Bank D → Bank D → Type 0
  Overflowed b b' =
      (base : Bank D) × (amount : D) × (next : ℤ) × Serves p b base
      × IsHealthy base
      × (add_one p.overflow_checks base.current_id ≡ some next)
      × (p.add base.balance amount ≡ none)
      × Serves p (create_transaction p amount base).1 b'

  Serves-Overflowed : (a b c : Bank D) → Serves p a b → Overflowed b c → Overflowed a c
  Serves-Overflowed a b c before (base, amount, next, served, well, counts, over, later) =
      (base, amount, next, Serves-trans p a b base before served, well, counts, over, later)

  Overflowed-Serves : (a b c : Bank D) → Overflowed a b → Serves p b c → Overflowed a c
  Overflowed-Serves a b c (base, amount, next, served, well, counts, over, later) after =
      (base, amount, next, served, well, counts, over, Serves-trans p _ b c later after)

  last_past :
      (n : ℕ) (ts : List (Transaction D)) (last : Transaction D)
      → All (λ t. t.created_at ≤ n) ts
      → get_last? ts ≡ some last
      → last.created_at ≤ n
  last_past n [] last h e = absurd (ground arith)
  last_past n (t ∷ []) last h e = rw (sym (some-injective _ _ e)) h.0
  last_past n (t ∷ u ∷ ts) last h e = last_past n (u ∷ ts) last h.1 e

  stamp-Follows :
      (amount : D) (b : Bank D) (last : Option (Transaction D))
      → IsHealthy b
      → get_last? b.transactions ≡ last
      → Follows p last (stamp p amount b.current_id (clock.time b.ticks))
  unfolding next_id
  stamp-Follows amount b none h e = tt
  stamp-Follows amount b (some last) h e = (
    last_past (clock.time b.ticks) b.transactions last h.past e,
    ap (next_id p) (sym e) ∙ h.stored.in_step,
  )

  pub healthy-Ready :
      (amount : D) (b : Bank D) (next : ℤ) (sum : D)
      → IsHealthy b
      → add_one p.overflow_checks b.current_id ≡ some next
      → p.add b.balance amount ≡ some sum
      → Ready p amount b
  healthy-Ready amount b next sum h e adds =
      let t = stamp p amount b.current_id (clock.time b.ticks) in
      let (line, json) = total.serializes t in
      record {
        next = next;
        counts = e;
        time = clock.time b.ticks;
        reads = clock.reads b.ticks;
        follows = stamp-Follows amount b (get_last? b.transactions) h refl;
        dated = clock.positive b.ticks;
        line = line;
        serializes = json;
        writes =
            ap (λ f. (write_all (into_bytes (line ++ b'\n' ∷ [])) (record b.file { fates = f })).0)
              h.steady;
        sum = sum;
        adds = adds;
      }

  pub created-IsHealthy :
      (amount : D) (b : Bank D) (r : Ready p amount b)
      → IsHealthy b
      → IsHealthy (created p amount b r)
  created-IsHealthy amount b r h = record {
    stored =
        create_transaction-IsStored p amount b (stamp p amount b.current_id r.time)
          (created p amount b r) h.stored (create_transaction-created p amount b r);
    steady =
        ap
          (λ f.
            (write_all (into_bytes (r.line ++ b'\n' ∷ [])) (record b.file { fates = f })).1.fates)
          h.steady;
    past =
        All-append (λ t. t.created_at ≤ clock.time (suc b.ticks)) b.transactions _
          (later_past p clock b.ticks (suc b.ticks) b.transactions (omega arith) h.past)
          (
            omega (
              arith,
              some-injective _ _ (sym r.reads ∙ clock.reads b.ticks),
              clock.forward b.ticks (suc b.ticks) (omega arith),
            ),
            tt,
          );
  }

  created_or_Overflowed :
      (amount : D) (b b' : Bank D)
      → b' ≡ (create_transaction p amount b).1
      → IsHealthy b
      → IsHealthy b' ⊎ Overflowed b b'
  unfolding Serves run
  created_or_Overflowed amount b b' e h =
      elim (Option-cases (add_one p.overflow_checks b.current_id)) [
        | inl over ↦ inl (
            subst IsHealthy
              (ap (λ o. o.1) (sym (create_transaction_overflow p amount b over)) ∙ sym e) h)
        | inr (next, counts) ↦ elim (Option-cases (p.add b.balance amount)) [
          | inl over ↦ inr (b, amount, next, Serves-refl p b, h, counts, over, ([], e))
          | inr (sum, adds) ↦
              let r = healthy-Ready amount b next sum h counts adds in
              inl (
                subst IsHealthy
                  (ap (λ o. o.1) (sym (create_transaction-created p amount b r)) ∙ sym e)
                  (created-IsHealthy amount b r h))
        ]
      ]

  after-IsHealthy :
      (c : Command D) (b : Bank D)
      → IsHealthy b
      → IsHealthy (after p c b) ⊎ Overflowed b (after p c b)
  unfolding after list_transactions get_transaction get_balance
  after-IsHealthy list b h = inl h
  after-IsHealthy (get id) b h = inl h
  after-IsHealthy balance b h = inl h
  after-IsHealthy (create amount) b h = created_or_Overflowed amount b _ refl h
  after-IsHealthy (void id) b h = elim (void_transaction-state p id b) [
    | inl same ↦ inl (subst IsHealthy (sym same) h)
    | inr (amount, e) ↦ created_or_Overflowed amount b _ e h
  ]

  -- Whatever calls are made one after the other, the bank stays healthy, unless a sum overflows.
  pub run-IsHealthy :
      (cs : List (Command D)) (b : Bank D)
      → IsHealthy b
      → IsHealthy (run p cs b) ⊎ Overflowed b (run p cs b)
  unfolding run Serves
  run-IsHealthy [] b h = inl h
  run-IsHealthy (c ∷ cs) b h = elim (after-IsHealthy c b h) [
    | inr over ↦ inr (Overflowed-Serves b (after p c b) _ over (cs, refl))
    | inl well ↦ elim (run-IsHealthy cs (after p c b) well) [
      | inl healthy ↦ inl healthy
      | inr over ↦ inr (Serves-Overflowed b (after p c b) _ (Serves-call p c b _ refl) over)
    ]
  ]

  pub served-IsHealthy :
      (b b' : Bank D) → IsHealthy b → Serves p b b' → IsHealthy b' ⊎ Overflowed b b'
  unfolding Serves
  served-IsHealthy b b' h (cs, e) =
      subst (λ x. IsHealthy x ⊎ Overflowed b x) (sym e) (run-IsHealthy cs b h)
