-- ===== src/Watch/Chain.antt =====
-- The stages of one round of runtime/private_workflow.py.
use nortropic_runtime.Prelude.{
  subst, String, str_eq, ◌≡◌, refl, Bool, true, false, inl, inr, ◌⊎◌, [], ◌∷◌, ◌++◌, Result, ok,
  err, if◌then◌else◌, ap, ◌∙◌, sym, arith,
}
use nortropic_runtime.Value.{
  Value, text, bool, dict, field, end, find_field, put_field, is_truthy, get_field,
}
use nortropic_runtime.Gate.Recovery.{set_field}
use nortropic_runtime.Gate.Approval.{get_field-set_field}
use nortropic_runtime.Watch.Assessment.{
  Role, intake, analysis, review, report, cancelled, unavailable, Failure, Round, name_of, is_due,
  note, continue, do_role, run,
}

-- What the later stages depend on.
abbrev needs_in : Value → Bool
needs_in outcome = is_truthy (get_field outcome "needs_model")

abbrev completed_in : Value → Bool
completed_in outcome = is_truthy (get_field outcome "completed")

abbrev pub needs_model : Value → Bool
needs_model outcomes = needs_in (get_field outcomes "intake")

abbrev pub is_analysed : Value → Bool
is_analysed outcomes = completed_in (get_field outcomes "analysis")

-- What stands for a stage: what it returned, or where it was not available, that it did not complete.
abbrev pub IsRecorded : Result Failure Value → Value → Type 0
IsRecorded (ok outcome) recorded = recorded ≡ outcome
IsRecorded (err _) recorded = get_field recorded "completed" ≡ bool false

-- The role was asked, and its outcome is the only one that changed.
abbrev IsNoted : Role → Result Failure Value → Round → Round → Type 0
IsNoted role result round next =
    (x : Value) × IsRecorded result x
    × (next.outcomes ≡ set_field round.outcomes (name_of role) x)
    × (next.asked ≡ round.asked ++ role ∷ [])

-- The round as `ok` carries it.
given : Round → Result Failure Round
given r = ok r

given-injective : (r s : Round) → given r ≡ ok s → r ≡ s
unfolding given
given-injective r s h = cc

noted :
    (role : Role) (result : Result Failure Value) (round next : Round)
    → note role result round ≡ ok next
    → IsNoted role result round next
unfolding given get_field find_field
noted role (ok outcome) round next h =
    let e =
      given-injective
        (record {
          outcomes = set_field round.outcomes (name_of role) outcome;
          asked = round.asked ++ role ∷ [];
        })
        next h in
    (outcome, refl, ap (λ (r : Round). r.outcomes) (sym e), ap (λ (r : Round). r.asked) (sym e))
noted role (err cancelled) round next h = absurd (ground arith)
noted role (err (unavailable reason)) round next h =
    let x = dict (field "completed" (bool false) (field "reason" (text reason) end)) in
    let e =
      given-injective
        (record {
          outcomes = set_field round.outcomes (name_of role) x;
          asked = round.asked ++ role ∷ [];
        })
        next h in
    (x, refl, ap (λ (r : Round). r.outcomes) (sym e), ap (λ (r : Round). r.asked) (sym e))

-- The other outcomes stay.
kept :
    (role : Role) (result : Result Failure Value) (round next : Round) (key : String)
    → IsNoted role result round next
    → str_eq (name_of role) key ≡ false
    → get_field next.outcomes key ≡ get_field round.outcomes key
kept role result round next key (x, _, e, _) other =
    ap (λ o. get_field o key) e ∙ get_field-set_field round.outcomes (name_of role) key x other

continued :
    (first : Result Failure Round) (rest : Round → Result Failure Round) (last : Round)
    → continue first rest ≡ ok last
    → (next : Round) × (first ≡ ok next) × (rest next ≡ ok last)
continued (ok next) rest last h = (next, refl, h)
continued (err e) rest last h = absurd (ground arith)

chosen :
    (test : Bool) (asked : Result Failure Round) (round next : Round)
    → (if test then asked else ok round) ≡ ok next
    → ((test ≡ true) × (asked ≡ ok next)) ⊎ ((test ≡ false) × (next ≡ round))
chosen true asked round next h = inl (refl, h)
chosen false asked round next h = inr (refl, cc)

module _ (perform : Role → Value → Result Failure Value) where
  -- A role that is due is asked, and one that is not leaves the round as it is.
  done :
      (role : Role) (round next : Round)
      → do_role perform role round ≡ ok next
      → ((is_due role round.outcomes ≡ true)
          × IsNoted role (perform role round.outcomes) round next)
        ⊎ ((is_due role round.outcomes ≡ false) × (next ≡ round))
  done role round next h =
      elim (chosen (is_due role round.outcomes) (note role (perform role round.outcomes) round)
        round next h) [
          | inl (e, h') ↦ inl (e, noted role (perform role round.outcomes) round next h')
          | inr (e, h') ↦ inr (e, h')
        ]

  -- The first stage, which is always asked.
  first_stage :
      (next : Round)
      → do_role perform intake (record { outcomes = dict end; asked = [] }) ≡ ok next
      → IsRecorded (perform intake (dict end)) (get_field next.outcomes "intake")
        × (next.outcomes ≡ dict (field "intake" (get_field next.outcomes "intake") end))
        × (next.asked ≡ intake ∷ [])
  unfolding is_due set_field put_field get_field find_field
  first_stage next h =
      let (x, recorded, e, asked) =
        noted intake (perform intake (dict end)) (record { outcomes = dict end; asked = [] }) next
          h in
      let same : get_field next.outcomes "intake" ≡ x = ap (λ o. get_field o "intake") e in
      (
        subst (IsRecorded (perform intake (dict end))) (sym same) recorded,
        e ∙ ap (λ v. dict (field "intake" v end)) (sym same),
        asked,
      )

  -- The analysis, on a round that has the intake alone.
  analysed_stage :
      (round next : Round) (v : Value)
      → round.outcomes ≡ dict (field "intake" v end)
      → IsNoted analysis (perform analysis round.outcomes) round next
      → IsRecorded
          (perform analysis (dict (field "intake" v end)))
          (get_field next.outcomes "analysis")
  unfolding set_field put_field get_field find_field
  analysed_stage round next v e (x, recorded, f, asked) =
      let same : get_field next.outcomes "analysis" ≡ x =
        ap (λ o. get_field o "analysis") (f ∙ ap (λ o. set_field o "analysis" x) e) in
      subst (λ o. IsRecorded (perform analysis o) (get_field next.outcomes "analysis")) e
        (subst (IsRecorded (perform analysis round.outcomes)) (sym same) recorded)

  -- The report keeps the outcomes that the round rests on.
  reported :
      (round last : Round)
      → do_role perform report round ≡ ok last
      → (get_field last.outcomes "intake" ≡ get_field round.outcomes "intake")
        × (get_field last.outcomes "analysis" ≡ get_field round.outcomes "analysis")
        × (last.asked ≡ round.asked ++ report ∷ [])
  unfolding is_due
  reported round last h =
      let n = noted report (perform report round.outcomes) round last h in
      (
        kept report (perform report round.outcomes) round last "intake" n refl,
        kept report (perform report round.outcomes) round last "analysis" n refl,
        n.3,
      )

  -- After an analysis: the review is asked exactly where the analysis completed.
  reviewed :
      (round next : Round)
      → needs_model round.outcomes ≡ true
      → do_role perform review round ≡ ok next
      → (get_field next.outcomes "intake" ≡ get_field round.outcomes "intake")
        × (get_field next.outcomes "analysis" ≡ get_field round.outcomes "analysis")
        × (((is_analysed round.outcomes ≡ false) × (next.asked ≡ round.asked))
            ⊎ ((is_analysed round.outcomes ≡ true) × (next.asked ≡ round.asked ++ review ∷ [])))
  unfolding is_due
  reviewed round next needs h = elim (done review round next h) [
    | inr (skipped, same) ↦ (
      ap (λ (r : Round). get_field r.outcomes "intake") same,
      ap (λ (r : Round). get_field r.outcomes "analysis") same,
      inl (ground (arith, needs, skipped), ap (λ (r : Round). r.asked) same),
    )
    | inl (due, n) ↦ (
      kept review (perform review round.outcomes) round next "intake" n refl,
      kept review (perform review round.outcomes) round next "analysis" n refl,
      inr (ground (arith, due), n.3),
    )
  ]

  passed_over :
      (round next : Round)
      → needs_model round.outcomes ≡ false
      → do_role perform review round ≡ ok next
      → next ≡ round
  unfolding is_due
  passed_over round next needs h = elim (done review round next h) [
    | inr (skipped, same) ↦ same
    | inl (due, n) ↦ absurd (ground (arith, needs, due))
  ]

  -- Whatever the stages return or raise: a round that is not cancelled has asked for the intake, and
  -- its recorded outcome is what the intake returned or, where it was unavailable, not completed. If
  -- that outcome needs no model, only the report is asked after it. If it does, the analysis is
  -- asked on the intake's outcome and is recorded likewise; then the review is asked if the analysis
  -- completed and is passed over if not; the report is asked last.
  pub models_as_needed :
      (last : Round)
      → run perform ≡ ok last
      → IsRecorded (perform intake (dict end)) (get_field last.outcomes "intake")
        × (((needs_model last.outcomes ≡ false) × (last.asked ≡ intake ∷ report ∷ []))
            ⊎ ((needs_model last.outcomes ≡ true)
                × IsRecorded
                    (perform analysis
                      (dict (field "intake" (get_field last.outcomes "intake") end)))
                    (get_field last.outcomes "analysis")
                × (((is_analysed last.outcomes ≡ false)
                      × (last.asked ≡ intake ∷ analysis ∷ report ∷ []))
                    ⊎ ((is_analysed last.outcomes ≡ true)
                        × (last.asked ≡ intake ∷ analysis ∷ review ∷ report ∷ [])))))
  unfolding run is_due
  models_as_needed last h =
      let start : Round = record { outcomes = dict end; asked = [] } in
      let (r1, h1, k1) = continued (do_role perform intake start) _ last h in
      let (r2, h2, k2) = continued (do_role perform analysis r1) _ last k1 in
      let (r3, h3, k3) = continued (do_role perform review r2) _ last k2 in
      let (r4, h4, k4) = continued (do_role perform report r3) _ last k3 in
      let final : do_role perform report r3 ≡ ok last = h4 ∙ k4 in
      let (recorded, outcome, asked) = first_stage r1 h1 in
      let (i4, a4, asked4) = reported r3 last final in
      elim (done analysis r1 r2 h2) [
        | inr (skipped, q) ↦
            let same : r3 ≡ r1 =
              passed_over r2 r3 (ap (λ (r : Round). needs_model r.outcomes) q ∙ skipped) h3 ∙ q in
            let i : get_field last.outcomes "intake" ≡ get_field r1.outcomes "intake" =
              i4 ∙ ap (λ (r : Round). get_field r.outcomes "intake") same in
            (
              subst (IsRecorded (perform intake (dict end))) (sym i) recorded,
              inl (
                ap needs_in i ∙ skipped,
                asked4
                    ∙ ap (λ (r : Round). r.asked ++ report ∷ []) same
                    ∙ ap (λ x. x ++ report ∷ []) asked,
              ),
            )
        | inl (due, n) ↦
            let i2 = kept analysis (perform analysis r1.outcomes) r1 r2 "intake" n refl in
            let (i3, a3, review_asked) = reviewed r2 r3 (ap needs_in i2 ∙ due) h3 in
            let i : get_field last.outcomes "intake" ≡ get_field r1.outcomes "intake" =
              i4 ∙ i3 ∙ i2 in
            let a : get_field last.outcomes "analysis" ≡ get_field r2.outcomes "analysis" =
              a4 ∙ a3 in
            let analysed = analysed_stage r1 r2 (get_field r1.outcomes "intake") outcome n in
            let asked2 : r2.asked ≡ intake ∷ analysis ∷ [] =
              n.3 ∙ ap (λ x. x ++ analysis ∷ []) asked in
            (
              subst (IsRecorded (perform intake (dict end))) (sym i) recorded,
              inr (
                ap needs_in i ∙ due,
                subst
                    (λ v.
                      IsRecorded (perform analysis (dict (field "intake" v end)))
                        (get_field last.outcomes "analysis"))
                    (sym i)
                    (subst
                      (IsRecorded (
                        perform analysis
                          (dict (field "intake" (get_field r1.outcomes "intake") end))))
                      (sym a) analysed),
                elim review_asked [
                  | inl (unfinished, asked3) ↦ inl (
                    ap completed_in a ∙ unfinished,
                    asked4 ∙ ap (λ x. x ++ report ∷ []) (asked3 ∙ asked2),
                  )
                  | inr (finished, asked3) ↦ inr (
                    ap completed_in a ∙ finished,
                    asked4
                        ∙ ap (λ x. x ++ report ∷ []) (asked3 ∙ ap (λ x. x ++ review ∷ []) asked2),
                  )
                ],
              ),
            )
      ]
