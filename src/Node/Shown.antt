-- ===== src/Node/Shown.antt =====
-- What the end states of a node show, and how that compares with what is saved.
use multi_robot_supervision.Prelude.{
  ℕ, zero, suc, String, Option, none, some, Bool, true, false, List, [], ◌∷◌, ◌≡◌, ◌||◌, ◌==◌, refl,
  arith, eq_iff, map, All, eqb, to_lower, or_text, first_present, if◌then◌else◌, sym, ◌∙◌, if_split,
}
use multi_robot_supervision.Prelude.Maps.{map_get, map_set}
use multi_robot_supervision.Outcome.{
  Outcome, EndState, infer_outcome, keyword_outcome, normalize_outcome, default_outcome, is_success,
}
use multi_robot_supervision.Node.{infer_outcome_from_end_state}
use multi_robot_supervision.Node.EndStates.{
  shown_outcome, default_end_state, default_end_states, by_outcome, in_place_of, shown_end_states,
}

abbrev is_told : Option Outcome → Bool
is_told none = false
is_told (some outcome) = true

-- Whether the label or the state of an end state has one of the words that tell an outcome.
abbrev pub is_telling : EndState → Bool
is_telling e = is_told (keyword_outcome (to_lower (or_text e.label "")) (to_lower e.state))

-- For an end state without an outcome that is the first one or has a telling word, saving infers the
-- outcome that the node infers; for every other one saving infers a failure and the node a success.
pub infer_outcome_agrees :
    (e : EndState) (index : ℕ)
    → (infer_outcome (record e { outcome = none }) index
        ≡ (if eqb index 0 || is_telling e then infer_outcome_from_end_state e else Outcome.failed))
      × ((is_telling e || is_success (infer_outcome_from_end_state e)) ≡ true)
unfolding infer_outcome normalize_outcome default_outcome keyword_outcome
    infer_outcome_from_end_state is_success
infer_outcome_agrees e zero = ground arith
infer_outcome_agrees e (suc index) = ground arith

abbrev IsKeyed : List (String × EndState) → Type 0
IsKeyed m = All (λ p. shown_outcome (p.1) ≡ p.0) m

map_set-IsKeyed :
    (e : EndState) (m : List (String × EndState))
    → IsKeyed m
    → IsKeyed (map_set (shown_outcome e) e m)
unfolding map_set
map_set-IsKeyed e [] h = (refl, tt)
map_set-IsKeyed e ((k, x) ∷ m) (p, h) =
    if_split IsKeyed (k == shown_outcome e) (λ same. (sym ((eq_iff k (shown_outcome e)).0 same), h))
      (λ _. (p, map_set-IsKeyed e m h))

by_outcome-IsKeyed :
    (m : List (String × EndState)) (es : List EndState) → IsKeyed m → IsKeyed (by_outcome m es)
unfolding by_outcome
by_outcome-IsKeyed m [] h = h
by_outcome-IsKeyed m (e ∷ es) h =
    by_outcome-IsKeyed (map_set (shown_outcome e) e m) es (map_set-IsKeyed e m h)

map_get-IsKeyed :
    (k : String) (m : List (String × EndState)) (x : EndState)
    → IsKeyed m
    → map_get k m ≡ some x
    → shown_outcome x ≡ k
unfolding map_get
map_get-IsKeyed k [] x h found = ground (arith, found)
map_get-IsKeyed k ((j, y) ∷ m) x (p, h) found =
    ground (arith, found, p, eq_iff j k, map_get-IsKeyed k m x h)

in_place_of-shown :
    (m : List (String × EndState)) (def : EndState)
    → IsKeyed m
    → shown_outcome def ≡ or_text (def.outcome) ""
    → shown_outcome (in_place_of m def) ≡ shown_outcome def
unfolding in_place_of shown_outcome infer_outcome_from_end_state
in_place_of-shown m def h d =
    go (map_get (or_text (def.outcome) "") m)
      (λ x. map_get-IsKeyed (or_text (def.outcome) "") m x h)
  where
    go :
        (found : Option EndState)
        → ((x : EndState) → found ≡ some x → shown_outcome x ≡ or_text (def.outcome) "")
        → shown_outcome (elim found [
          | none ↦ def
          | some ex ↦ record ex { color = first_present (ex.color) (def.color) }
        ])
          ≡ shown_outcome def
    go none k = refl
    go (some ex) k = k ex refl ∙ sym d

shown_defaults :
    (m : List (String × EndState))
    → IsKeyed m
    → map shown_outcome (map (in_place_of m) default_end_states)
      ≡ "success" ∷ "failed" ∷ "aborted" ∷ "cancelled" ∷ "timeout" ∷ []
unfolding shown_outcome
shown_defaults m h = cc (
  in_place_of-shown m (default_end_state "end-success" "idle" "Success" "success" "#22c55e") h refl,
  in_place_of-shown m (default_end_state "end-failed" "error" "Failed" "failed" "#ef4444") h refl,
  in_place_of-shown m (default_end_state "end-aborted" "error" "Aborted" "aborted" "#ef4444") h
      refl,
  in_place_of-shown m (default_end_state "end-cancelled" "idle" "Cancelled" "cancelled" "#6b7280") h
      refl,
  in_place_of-shown m (default_end_state "end-timeout" "error" "Timeout" "timeout" "#f59e0b") h
      refl,
)

-- Whatever end states a node has stored, it shows the five default outcomes, each once and in their order.
pub shown_end_states-outcomes :
    (es : List EndState)
    → map shown_outcome (shown_end_states es)
      ≡ "success" ∷ "failed" ∷ "aborted" ∷ "cancelled" ∷ "timeout" ∷ []
unfolding shown_end_states shown_outcome
shown_end_states-outcomes [] = refl
shown_end_states-outcomes (e ∷ es) =
    let m = by_outcome [] (e ∷ es) in
    let keyed = by_outcome-IsKeyed [] (e ∷ es) tt in shown_defaults m keyed
