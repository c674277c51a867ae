-- ===== src/Simulator/Plan.antt =====
-- What the three plans share: their interactions, and how far they have been performed.
-- `with_gen_interactions` of the library is a call of `gen_interactions`.
use dst_demo.Prelude.{
  ℕ, zero, suc, ◌+◌, ◌<◌, ◌≡◌, refl, sym, ◌∙◌, arith, Option, none, some, List, [], ◌∷◌, ◌++◌,
  get_elem?, length, append_assoc, length-append, ap,
}

pub record Plan (C I : Type 0) : Type 0 where
  pub context : C
  pub step : ℕ
  pub plan : List I

pub past : {I : Type 0} (xs ys : List I) → get_elem? (xs ++ ys) (length xs) ≡ get_elem? ys 0
past [] ys = refl
past (x ∷ xs) ys = past xs ys

module _ {C I : Type 0} where
  abbrev pub advance : Option I → Plan C I → Option I × Plan C I
  advance none s = (none, s)
  advance (some item) s = (some item, record s { step = suc s.step })

  -- `InteractionPlan::step`
  unfoldable pub next : Plan C I → Option I × Plan C I
  next s = advance (get_elem? s.plan s.step) s

  abbrev pub performed : (Plan C I → List I × Plan C I) → Option I × Plan C I → List I × Plan C I
  performed again (none, s) = ([], s)
  performed again (some i, s) = let (items, s') = again s in (i ∷ items, s')

  -- `while let Some(interaction) = plan.step()`, with fuel for the rounds: what was performed.
  unfoldable pub perform_all : ℕ → Plan C I → List I × Plan C I
  perform_all zero s = ([], s)
  perform_all (suc fuel) s = performed (perform_all fuel) (next s)

  -- With more fuel than interactions left, a client performs what it has not performed yet, each
  -- interaction once and in the plan's order, and then the plan is at its end.
  pub perform_all-plan :
      (done todo : List I) (s : Plan C I) (fuel : ℕ)
      → s.plan ≡ done ++ todo
      → s.step ≡ length done
      → length todo < fuel
      → perform_all fuel s ≡ (todo, record s { step = length done + length todo })
  unfolding perform_all next
  perform_all-plan done todo s zero e at enough = absurd (omega arith)
  perform_all-plan done [] s (suc fuel) e at enough =
      let here : get_elem? s.plan s.step ≡ none = rw (e, at) (past done []) in
      let stop : next s ≡ (none, s) = ap (λ o. advance o s) here in
      ap (performed (perform_all fuel)) stop ∙ ap (λ n. ([], record s { step = n })) (omega arith)
  perform_all-plan done (i ∷ todo) s (suc fuel) e at enough =
      let here : get_elem? s.plan s.step ≡ some i = rw (e, at) (past done (i ∷ todo)) in
      let go : next s ≡ (some i, record s { step = suc s.step }) = ap (λ o. advance o s) here in
      let rest =
        perform_all-plan (done ++ i ∷ []) todo (record s { step = suc s.step }) fuel
          (e ∙ sym (append_assoc done (i ∷ []) todo)) (omega (arith, length-append done (i ∷ [])))
          (omega arith) in
      ap (performed (perform_all fuel)) go
      ∙ (ap (λ (r : List I × Plan C I). (i ∷ r.0, r.1)) rest
          ∙ ap (λ n. (i ∷ todo, record s { step = n }))
              (omega (arith, length-append done (i ∷ []))))
