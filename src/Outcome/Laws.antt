-- ===== src/Outcome/Laws.antt =====
-- Laws of the outcomes and the end states: names round trip, and the two categories of a list of
-- end states.
use multi_robot_supervision.Prelude.{
  ℕ, suc, String, some, Bool, true, false, List, [], ◌∷◌, ◌++◌, ◌||◌, ◌&&◌, ◌≡◌, ap, refl, ◌∙◌, sym,
  arith, filter, uniq, append_assoc, append-nil, not, to_lower, if◌then◌else◌, Bool-cases, inl, inr,
}
use multi_robot_supervision.Outcome.{
  Outcome, EndState, outcome_text, normalize_outcome, infer_outcome, is_success, Categorized,
  categorize_one, categorize_from, categorize_end_states, is_text, end_states_of, end_state_at,
  or_default, build_end_states,
}

-- The saved text of every outcome is read back as that outcome.
pub normalize_outcome-outcome_text :
    (o : Outcome) → normalize_outcome (some (outcome_text o)) ≡ some o
unfolding normalize_outcome outcome_text to_lower
normalize_outcome-outcome_text Outcome.success = refl
normalize_outcome-outcome_text Outcome.failed = refl
normalize_outcome-outcome_text Outcome.aborted = refl
normalize_outcome-outcome_text Outcome.cancelled = refl
normalize_outcome-outcome_text Outcome.timeout = refl
normalize_outcome-outcome_text Outcome.rejected = refl

-- An end state that the first position reads as a failure is read so at every position.
pub infer_outcome_of_failure :
    (e : EndState) (index : ℕ)
    → is_success (infer_outcome e 0) ≡ false
    → infer_outcome e index ≡ infer_outcome e 0
unfolding infer_outcome is_success
infer_outcome_of_failure e index h = ground arith

-- The states of the end states of one category, in their order.
abbrev pub states_with : Bool → ℕ → List EndState → List String
states_with want index [] = []
states_with want index (e ∷ es) =
    let rest = states_with want (suc index) es in
    let here = is_success (infer_outcome e index) in
    if want && here || not want && not here then e.state ∷ rest else rest

categorize_from-states :
    (c : Categorized) (index : ℕ) (es : List EndState)
    → ((categorize_from c index es).success_states ≡ c.success_states ++ states_with true index es)
      × ((categorize_from c index es).failure_states
          ≡ c.failure_states ++ states_with false index es)
unfolding categorize_from categorize_one
categorize_from-states c index [] = (rw append-nil, rw append-nil)
categorize_from-states c index (e ∷ es) = ground (
  arith,
  categorize_from-states (categorize_one c e index) (suc index) es,
  append_assoc c.success_states (e.state ∷ []) (states_with true (suc index) es),
  append_assoc c.failure_states (e.state ∷ []) (states_with false (suc index) es),
)

-- The success states are the states of the success end states, in order, with the empty ones and
-- the repetitions dropped; the failure states are those of the failure end states, likewise.
pub categorize_end_states-states :
    (es : List EndState)
    → ((categorize_end_states es).success_states ≡ uniq (filter is_text (states_with true 0 es)))
      × ((categorize_end_states es).failure_states ≡ uniq (filter is_text (states_with false 0 es)))
unfolding categorize_end_states
categorize_end_states-states es =
    let none_yet : Categorized = record {
      success_states = [];
      failure_states = [];
      outcomes = [];
    } in
    let (p, q) = categorize_from-states none_yet 0 es in (rw p, rw q)

infer_outcome_of_text :
    (e : EndState) (o : Outcome) (index : ℕ)
    → e.outcome ≡ some (outcome_text o)
    → infer_outcome e index ≡ o
unfolding infer_outcome
infer_outcome_of_text e o index h = ground (arith, normalize_outcome-outcome_text o)

abbrev agrees : Bool → Outcome → Bool
agrees want o = want && is_success o || not want && not (is_success o)

states_with-cons :
    (want : Bool) (o : Outcome) (i : ℕ) (e : EndState) (es : List EndState)
    → e.outcome ≡ some (outcome_text o)
    → states_with want i (e ∷ es) ≡ (
        if agrees want o
        then e.state ∷ states_with want (suc i) es
        else states_with want (suc i) es)
states_with-cons want o i e es h = rw (infer_outcome_of_text e o i h) refl

states_with-end_states_of :
    (want : Bool) (o : Outcome) (prefix label : String) (i j : ℕ) (states : List String)
    (es : List EndState)
    → (k : ℕ) × (states_with want i (end_states_of prefix label (outcome_text o) j states ++ es)
        ≡ (if agrees want o then states else []) ++ states_with want k es)
unfolding end_states_of
states_with-end_states_of want o prefix label i j [] es = (i, ground arith)
states_with-end_states_of want o prefix label i j (state ∷ states) es =
    let (k, ih) = states_with-end_states_of want o prefix label (suc i) (suc j) states es in
    let e = end_state_at prefix label (outcome_text o) j state in
    (
      k,
      states_with-cons want o i e (end_states_of prefix label (outcome_text o) (suc j) states ++ es)
            refl
          ∙ elim (Bool-cases (agrees want o)) [
            | inl hit ↦ rw hit (ap (◌∷◌ state) (rw hit at ih))
            | inr miss ↦ rw miss (rw miss at ih)
          ],
    )

states_with-build_end_states :
    (want : Bool) (ss fs : List String) (ds df : String)
    → states_with want 0 (build_end_states ss fs ds df)
      ≡ (if want then or_default ss ds else or_default fs df)
unfolding build_end_states is_success outcome_text
states_with-build_end_states want ss fs ds df =
    let good = or_default ss ds in
    let bad = or_default fs df in
    let failures = end_states_of "end-failure-" "Failure" "failed" 0 bad in
    let (k, p) =
      states_with-end_states_of want Outcome.success "end-success-" "Success" 0 0 good failures in
    let (l, q) =
      states_with-end_states_of want Outcome.failed "end-failure-" "Failure" k 0 bad [] in
    p
    ∙ ap (λ t. (if agrees want Outcome.success then good else []) ++ states_with want k t)
        (sym (append-nil failures))
    ∙ ap (◌++◌ (if agrees want Outcome.success then good else [])) q
    ∙ last want good bad
  where
    last :
        (w : Bool) (xs ys : List String)
        → (if agrees w Outcome.success then xs else [])
            ++ ((if agrees w Outcome.failed then ys else []) ++ [])
          ≡ (if w then xs else ys)
    last true xs ys = append-nil xs
    last false xs ys = append-nil ys

-- Sorting the end states that are built from two lists of states gives the two lists back, with the
-- defaults for an empty list, and without empty states and repetitions.
pub categorize_end_states-build_end_states :
    (ss fs : List String) (ds df : String)
    → ((categorize_end_states (build_end_states ss fs ds df)).success_states
        ≡ uniq (filter is_text (or_default ss ds)))
      × ((categorize_end_states (build_end_states ss fs ds df)).failure_states
          ≡ uniq (filter is_text (or_default fs df)))
categorize_end_states-build_end_states ss fs ds df =
    let (p, q) = categorize_end_states-states (build_end_states ss fs ds df) in
    (
      p ∙ ap (λ t. uniq (filter is_text t)) (states_with-build_end_states true ss fs ds df),
      q ∙ ap (λ t. uniq (filter is_text t)) (states_with-build_end_states false ss fs ds df),
    )
