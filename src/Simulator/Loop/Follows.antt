-- ===== src/Simulator/Loop/Follows.antt =====
-- A client performs its plan in order, however often the plan is generated further.
use dst_demo.Prelude.{
  ℕ, zero, suc, ◌+◌, ◌≡◌, ◌≢◌, ◌⊎◌, inl, inr, refl, sym, ◌∙◌, ap, arith, Option, none, some, List,
  [], ◌∷◌, ◌++◌, get_elem?, length, append_assoc, append-nil, length-append,
}
use mathlib.Core.Path.{subst}
use dst_demo.Simulator.Plan.{Plan, next, advance, past}
use dst_demo.Simulator.Loop.{
  End, done, failed, crashed, performing, ended_by, Ran, after_gen, or_gen, upcoming, halted,
  performed_first, resume, perform_upcoming, client_loop,
}

module _ {C I G S W : Type 0} (gen : Plan C I → G → Option (Plan C I × G))
    (perform : W → I → Plan C I → S → End × S) where
  -- `gen_interactions` returns as often as `n` says, with new interactions at the end of the plan.
  pub record Generates (Ready : ℕ → Plan C I → Type 0) : Type 0 where
    pub grows :
        (n : ℕ) (plan : Plan C I) (g : G)
        → Ready (suc n) plan
        → (plan' : Plan C I) × (g' : G) × (i : I) × (is : List I) × (gen plan g ≡ some (plan', g'))
          × (plan'.plan ≡ plan.plan ++ i ∷ is)
          × (plan'.step ≡ plan.step)
          × Ready n plan'
    pub fewer : (n : ℕ) (plan : Plan C I) → Ready (suc n) plan → Ready n plan
    pub steps :
        (n : ℕ) (plan : Plan C I) → Ready n plan → Ready n (record plan { step = suc plan.step })

  -- The run of a client whose plan is `before`, which it has performed, and `rest`: it has performed
  -- what comes next in its plan, in order, up to the plan's step, and the plan has grown at its end.
  pub record Follows (before rest : List I) (r : Ran C I G S) : Type 0 where
    pub ahead : List I
    pub in_order : r.plan.plan ≡ before ++ (r.performed ++ ahead)
    pub place : r.plan.step ≡ length before + length r.performed
    pub new : List I
    pub grown : r.performed ++ ahead ≡ rest ++ new

  -- Still performing, with an interaction for each event; or ended by the last interaction, after
  -- one for each earlier event.
  abbrev pub GoesOn : List W → Ran C I G S → Type 0
  GoesOn ws r =
      ((r.halt ≡ performing) × (length r.performed ≡ length ws))
      ⊎ ((earlier later : List W) × (w : W) × (items : List I) × (i : I) × (s : S) × (ws
            ≡ earlier ++ w ∷ later)
          × (r.performed ≡ items ++ i ∷ [])
          × (length items ≡ length earlier)
          × ((perform w i r.plan s).0 ≢ done)
          × (r.halt ≡ ended_by (perform w i r.plan s).0))

  module _ {Ready : ℕ → Plan C I → Type 0} (generates : Generates Ready) where
    -- What comes next is in the plan, or generated.
    upcoming-next :
        (n : ℕ) (before rest : List I) (plan : Plan C I) (g : G)
        → Ready (suc n) plan
        → plan.plan ≡ before ++ rest
        → plan.step ≡ length before
        → (i : I) × (plan' : Plan C I) × (g' : G) × (rest' new : List I) × (upcoming gen perform
              plan g
            ≡ some (some i, plan', g'))
          × (plan'.plan ≡ before ++ i ∷ rest')
          × (plan'.step ≡ suc (length before))
          × (i ∷ rest' ≡ rest ++ new)
          × Ready n plan'
    unfolding upcoming next
    upcoming-next n before (i ∷ rest) plan g ready e at =
        let here : get_elem? plan.plan plan.step ≡ some i = rw (e, at) (past before (i ∷ rest)) in
        (
          i,
          record plan { step = suc plan.step },
          g,
          rest,
          [],
          ap (λ o. or_gen gen perform (advance o plan) g) here,
          e,
          ap suc at,
          sym (append-nil (i ∷ rest)),
          generates.steps n plan (generates.fewer n plan ready),
        )
    upcoming-next n before [] plan g ready e at =
        let (plan', g', i, is, made, grown, kept, ready') = generates.grows n plan g ready in
        let before_all : plan.plan ≡ before = e ∙ append-nil before in
        let whole : plan'.plan ≡ before ++ i ∷ is = grown ∙ ap (λ xs. xs ++ i ∷ is) before_all in
        let at_end : get_elem? plan.plan plan.step ≡ none = rw (e, at) (past before []) in
        let here : get_elem? plan'.plan plan'.step ≡ some i =
          rw (whole, kept, at) (past before (i ∷ is)) in
        (
          i,
          record plan' { step = suc plan'.step },
          g',
          is,
          i ∷ is,
          ap (λ o. or_gen gen perform (advance o plan) g) at_end
              ∙ ap (λ o. after_gen gen perform o) made
              ∙ ap (λ o. let (item, next_plan) = advance o plan' in some (item, next_plan, g'))
                  here,
          whole,
          ap suc (kept ∙ at),
          refl,
          generates.steps n plan' ready',
        )

    abbrev IsRun : List W → List I → List I → Ran C I G S → Type 0
    IsRun ws before rest r = Follows before rest r × GoesOn ws r × Ready 0 r.plan

    none_left : (n : ℕ) (plan : Plan C I) → Ready n plan → Ready 0 plan
    none_left zero plan h = h
    none_left (suc n) plan h = none_left n plan (generates.fewer n plan h)

    halted-IsRun :
        (ws : List W) (before rest rest' new : List I) (w : W) (i : I) (plan : Plan C I) (g : G)
        (s s' : S) (end : End)
        → Ready 0 plan
        → (perform w i plan s).0 ≡ end
        → end ≢ done
        → plan.plan ≡ before ++ i ∷ rest'
        → plan.step ≡ suc (length before)
        → i ∷ rest' ≡ rest ++ new
        → IsRun (w ∷ ws) before rest (halted gen perform (ended_by end) (i ∷ []) plan g s')
    halted-IsRun ws before rest rest' new w i plan g s s' end ready ends bad e at grown = (
      record { ahead = rest'; in_order = e; place = omega arith; new = new; grown = grown },
      inr (
        [],
        ws,
        w,
        [],
        i,
        s,
        refl,
        refl,
        refl,
        (λ d. bad (sym ends ∙ d)),
        ap ended_by (sym ends),
      ),
      ready,
    )

    one_more :
        (ws : List W) (w : W) (i : I) (r : Ran C I G S)
        → GoesOn ws r
        → GoesOn (w ∷ ws) (performed_first gen perform i r)
    one_more ws w i r (inl (h, count)) = inl (h, ap suc count)
    one_more ws w i r (inr (earlier, later, w', items, i', s, all, last, count, bad, ends)) = inr (
      w ∷ earlier,
      later,
      w',
      i ∷ items,
      i',
      s,
      ap (λ xs. w ∷ xs) all,
      ap (λ xs. i ∷ xs) last,
      ap suc count,
      bad,
      ends,
    )

    resumed :
        (ws : List W) (before rest rest' new : List I) (w : W) (i : I) (plan : Plan C I) (g : G)
        (s : S) (o : End × S)
        → Ready 0 plan
        → perform w i plan s ≡ o
        → plan.plan ≡ before ++ i ∷ rest'
        → plan.step ≡ suc (length before)
        → i ∷ rest' ≡ rest ++ new
        → ((s' : S) → IsRun ws (before ++ i ∷ []) rest' (client_loop gen perform ws plan g s'))
        → IsRun (w ∷ ws) before rest (resume gen perform i plan g (client_loop gen perform ws) o)
    resumed ws before rest rest' new w i plan g s (failed, s') ready ends e at grown later =
        halted-IsRun ws before rest rest' new w i plan g s s' failed ready (ap (λ o. o.0) ends)
          (λ d. ground arith) e at grown
    resumed ws before rest rest' new w i plan g s (crashed, s') ready ends e at grown later =
        halted-IsRun ws before rest rest' new w i plan g s s' crashed ready (ap (λ o. o.0) ends)
          (λ d. ground arith) e at grown
    resumed ws before rest rest' new w i plan g s (done, s') ready ends e at grown later =
        let (f, go, kept) = later s' in
        (
          record {
            ahead = f.ahead;
            in_order = f.in_order ∙ append_assoc before (i ∷ []) _;
            place = omega (arith, f.place, length-append before (i ∷ []));
            new = new ++ f.new;
            grown =
                ap (λ xs. i ∷ xs) f.grown
                ∙ ap (λ xs. xs ++ f.new) grown
                ∙ append_assoc rest new f.new;
          },
          one_more ws w i (client_loop gen perform ws plan g s') go,
          kept,
        )

    -- A client whose plan is generated without a panic performs it in order, each interaction once,
    -- and does not stop by itself: it performs an interaction for each event, unless one fails.
    pub client_loop-Follows :
        (ws : List W) (before rest : List I) (plan : Plan C I) (g : G) (s : S)
        → Ready (length ws) plan
        → plan.plan ≡ before ++ rest
        → plan.step ≡ length before
        → Follows before rest (client_loop gen perform ws plan g s)
          × GoesOn ws (client_loop gen perform ws plan g s)
          × Ready 0 (client_loop gen perform ws plan g s).plan
    unfolding client_loop
    client_loop-Follows [] before rest plan g s ready e at = (
      record {
        ahead = rest;
        in_order = e;
        place = omega arith;
        new = [];
        grown = sym (append-nil rest);
      },
      inl (refl, refl),
      ready,
    )
    client_loop-Follows (w ∷ ws) before rest plan g s ready e at =
        let (i, plan', g', rest', new, next_one, whole, place, grown, ready') =
          upcoming-next (length ws) before rest plan g ready e at in
        subst
          (λ o.
            IsRun (w ∷ ws) before rest
              (perform_upcoming gen perform w plan g s (client_loop gen perform ws) o))
          (sym next_one)
          (resumed ws before rest rest' new w i plan' g' s (perform w i plan' s)
            (none_left (length ws) plan' ready') refl whole place grown
            λ s'.
              client_loop-Follows ws (before ++ i ∷ []) rest' plan' g' s' ready'
                (whole ∙ sym (append_assoc before (i ∷ []) rest'))
                (omega (arith, place, length-append before (i ∷ []))))
