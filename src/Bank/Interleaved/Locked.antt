-- ===== src/Bank/Interleaved/Locked.antt =====
-- The lock of `current_id` makes the calls of `create_transaction` follow one another.
use dst_demo.Prelude.{
  ℕ, ◌≡◌, refl, sym, ◌∙◌, ap, arith, Option, none, some, ◌==◌, ==_iff, true, inl, inr, Bool-cases,
  if◌then◌else◌,
}
use mathlib.Core.Path.{subst}
use dst_demo.Transaction.{Transaction}
use dst_demo.Platform.{Platform}
use dst_demo.Bank.{Bank, find, create_transaction}
use dst_demo.Bank.Sound.{create, after}
use dst_demo.Bank.Serves.{Serves, Serves-refl, Serves-trans, Serves-call}
use dst_demo.Bank.Stages.{
  Stage, idle, finding, waiting, taken, checking, writing, crediting, pushing, finished, IsInside,
  advance, settle, resume, advance-resume,
}
use dst_demo.Bank.Killed.{Work, begun, goes}
use dst_demo.Bank.Interleaved.Between.{Between, advance-Between}
use dst_demo.Bank.Interleaved.{
  System, place, sought, owner_after, update, Step, create, void, find_existing, acquire, work,
  leave, init, Reach, start, later,
}

module _ {D : Type 0} (p : Platform D) (start_bank : Bank D) where
  -- A call that holds the lock: the bank at which it took it came about by calls, and the rest of
  -- the call leads to what the whole call gives.
  pub record Underway (st : Stage D) (b : Bank D) : Type 0 where
    pub base : Bank D
    pub amount : D
    pub served : Serves p start_bank base
    pub rest : resume p st b ≡ create_transaction p amount base
    pub inside : IsInside st
    pub between : Between p st base b
    pub progress : Work p amount base st b

  pub record IsLocked (s : System D) : Type 0 where
    pub exclusive : (i : ℕ) → IsInside (s.stage i) → s.owner ≡ some i
    pub owned : (i : ℕ) → s.owner ≡ some i → Underway (s.stage i) s.bank
    pub free : s.owner ≡ none → Serves p start_bank s.bank

  place-IsLocked :
      (s : System D) (i : ℕ) (st : Stage D)
      → ¬ IsInside (s.stage i)
      → ¬ IsInside st
      → IsLocked s
      → IsLocked (place p s i st)
  place-IsLocked s i st out out' h = record {
    exclusive = λ j inside. elim (Bool-cases (j == i)) [
      | inl here ↦ absurd (out' (subst (λ c. IsInside (if c then st else s.stage j)) here inside))
      | inr other ↦ h.exclusive j (subst (λ c. IsInside (if c then st else s.stage j)) other inside)
    ];
    owned = λ j mine. elim (Bool-cases (j == i)) [
      | inl here ↦
          absurd
            (out (subst (λ k. IsInside (s.stage k)) ((==_iff j i).0 here) (h.owned j mine).inside))
      | inr other ↦
          subst (λ c. Underway (if c then st else s.stage j) s.bank) (sym other) (h.owned j mine)
    ];
    free = h.free;
  }

  acquire-IsLocked :
      (s : System D) (i : ℕ) (amount : D)
      → s.owner ≡ none
      → IsLocked s
      → IsLocked (record (place p s i (taken amount)) { owner = some i })
  unfolding resume
  acquire-IsLocked s i amount free h = record {
    exclusive = λ j inside. elim (Bool-cases (j == i)) [
      | inl here ↦ ap some (sym ((==_iff j i).0 here))
      | inr other ↦
          let old : IsInside (s.stage j) =
            subst (λ c. IsInside (if c then taken amount else s.stage j)) other inside in
          let owner = h.exclusive j old in absurd (ground arith)
    ];
    owned = λ j mine.
        let here : (j == i) ≡ true = ground arith in
        subst (λ c. Underway (if c then taken amount else s.stage j) s.bank) (sym here)
          (record {
            base = s.bank;
            amount = amount;
            served = h.free free;
            rest = refl;
            inside = tt;
            between = (refl, refl);
            progress = begun;
          });
    free = λ e. absurd (ground arith);
  }

  -- A stage that holds no lock leaves the bank alone.
  resume-outside : (st : Stage D) (b : Bank D) → ¬ IsInside st → (resume p st b).1 ≡ b
  unfolding resume
  resume-outside idle b h = refl
  resume-outside (finding _) b h = refl
  resume-outside (waiting _) b h = refl
  resume-outside (finished _) b h = refl
  resume-outside (taken _) b h = absurd (h tt)
  resume-outside (checking _ _) b h = absurd (h tt)
  resume-outside (writing _) b h = absurd (h tt)
  resume-outside (crediting _) b h = absurd (h tt)
  resume-outside (pushing _) b h = absurd (h tt)

  owner_inside : (st : Stage D) (i : ℕ) → IsInside st → owner_after p st i ≡ some i
  owner_inside (taken _) i h = refl
  owner_inside (checking _ _) i h = refl
  owner_inside (writing _) i h = refl
  owner_inside (crediting _) i h = refl
  owner_inside (pushing _) i h = refl
  owner_inside idle i h = elim h [ ]
  owner_inside (finding _) i h = elim h [ ]
  owner_inside (waiting _) i h = elim h [ ]
  owner_inside (finished _) i h = elim h [ ]

  IsInside-owner : (st : Stage D) (i j : ℕ) → owner_after p st i ≡ some j → IsInside st × (j ≡ i)
  IsInside-owner (taken _) i j h = (tt, ground arith)
  IsInside-owner (checking _ _) i j h = (tt, ground arith)
  IsInside-owner (writing _) i j h = (tt, ground arith)
  IsInside-owner (crediting _) i j h = (tt, ground arith)
  IsInside-owner (pushing _) i j h = (tt, ground arith)
  IsInside-owner idle i j h = absurd (ground arith)
  IsInside-owner (finding _) i j h = absurd (ground arith)
  IsInside-owner (waiting _) i j h = absurd (ground arith)
  IsInside-owner (finished _) i j h = absurd (ground arith)

  -- The new stage of the task that had the lock, and the bank that it leaves.
  moved-IsLocked :
      (s : System D) (i : ℕ) (st : Stage D) (b : Bank D)
      → s.owner ≡ some i
      → IsLocked s
      → (u : Underway (s.stage i) s.bank) → resume p st b ≡ resume p (s.stage i) s.bank
      → Between p st u.base b
      → Work p u.amount u.base st b
      → IsLocked (record { bank = b; owner = owner_after p st i; stage = update s.stage i st })
  unfolding after
  moved-IsLocked s i st b mine h u same between progress = record {
    exclusive = λ j inside. elim (Bool-cases (j == i)) [
      | inl here ↦
          let new : IsInside st = subst (λ c. IsInside (if c then st else s.stage j)) here inside in
          owner_inside st i new ∙ ap some (sym ((==_iff j i).0 here))
      | inr other ↦
          let old : IsInside (s.stage j) =
            subst (λ c. IsInside (if c then st else s.stage j)) other inside in
          let owner = h.exclusive j old in absurd (ground arith)
    ];
    owned = λ j theirs.
        let (inside, who) = IsInside-owner st i j theirs in
        let here : (j == i) ≡ true = ground arith in
        subst (λ c. Underway (if c then st else s.stage j) b) (sym here)
          (record {
            base = u.base;
            amount = u.amount;
            served = u.served;
            rest = same ∙ u.rest;
            inside = inside;
            between = between;
            progress = progress;
          });
    free = λ dropped.
        let outside : ¬ IsInside st = λ inside. let e = owner_inside st i inside in cc in
        let ended : b ≡ (create_transaction p u.amount u.base).1 =
          sym (resume-outside st b outside) ∙ ap (λ o. o.1) (same ∙ u.rest) in
        Serves-trans p start_bank u.base b u.served
          (Serves-call p (create u.amount) u.base b ended);
  }

  not-IsInside : (s t : Stage D) → s ≡ t → ¬ IsInside t → ¬ IsInside s
  not-IsInside s t e h inside = h (subst IsInside e inside)

  sought_outside : (o : Option (Transaction D)) → ¬ IsInside (sought p o)
  sought_outside none h = elim h [ ]
  sought_outside (some t) h = elim h [ ]

  Step-IsLocked : (s t : System D) → Step p s t → IsLocked s → IsLocked t
  Step-IsLocked s t (create i amount at e) h = subst IsLocked (sym e) (
      place-IsLocked s i (waiting amount) (not-IsInside _ _ at λ x. elim x [ ]) (λ x. elim x [ ]) h)
  Step-IsLocked s t (void i id at e) h =
      subst IsLocked (sym e)
        (place-IsLocked s i (finding id) (not-IsInside _ _ at λ x. elim x [ ]) (λ x. elim x [ ]) h)
  Step-IsLocked s t (find_existing i id at e) h = subst IsLocked (sym e) (
      place-IsLocked s i (sought p (find id s.bank.transactions))
        (not-IsInside _ _ at λ x. elim x [ ]) (sought_outside _) h)
  Step-IsLocked s t (acquire i amount at free e) h =
      subst IsLocked (sym e) (acquire-IsLocked s i amount free h)
  Step-IsLocked s t (work i mine e) h =
      let u = h.owned i mine in
      let (r, b) = advance p (s.stage i) s.bank in
      subst IsLocked (sym e) (
        moved-IsLocked s i (settle p r) b mine h u (advance-resume p (s.stage i) s.bank u.inside)
          (advance-Between p (s.stage i) u.base s.bank u.inside u.between) (goes u.progress refl))
  Step-IsLocked s t (leave i o at e) h =
      subst IsLocked (sym e)
        (place-IsLocked s i idle (not-IsInside _ _ at λ x. elim x [ ]) (λ x. elim x [ ]) h)

  init-IsLocked : IsLocked (init p start_bank)
  init-IsLocked = record {
    exclusive = λ i inside. elim inside [ ];
    owned = λ i mine. absurd (ground arith);
    free = λ _. Serves-refl p start_bank;
  }

  pub Reach-IsLocked : {s : System D} → Reach p start_bank s → IsLocked s
  Reach-IsLocked start = init-IsLocked
  Reach-IsLocked (later {s = s} {t = t} r st) = Step-IsLocked s t st (Reach-IsLocked r)

  -- However tasks that create and void transactions are interleaved between their awaits of a lock,
  -- and however each call ends: whenever no task holds the lock of `current_id`, the bank is what
  -- calls one after the other would have made it.
  pub Reach-Serves :
      (s : System D) → Reach p start_bank s → s.owner ≡ none → Serves p start_bank s.bank
  Reach-Serves s r free = (Reach-IsLocked r).free free
