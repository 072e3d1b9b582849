-- ===== src/Graph/Save/Outcomes.antt =====
-- The end states of a node while it is saved: with distinct ids, the map of outcomes holds for each
-- end state its own outcome.
use multi_robot_supervision.Prelude.{
  ℕ, suc, String, some, false, List, [], ◌∷◌, ◌≡◌, refl, ◌∙◌, arith, eq_iff, eq_refl, ◌==◌, has,
  find?, All, IsDistinct,
}
use multi_robot_supervision.Prelude.Maps.{map_get, map_set, map_get-map_set}
use multi_robot_supervision.Outcome.{
  Outcome, EndState, infer_outcome, Categorized, categorize_one, categorize_from,
  categorize_end_states,
}

abbrev pub end_state_ids : List EndState → List String
end_state_ids [] = []
end_state_ids (e ∷ es) = e.id ∷ end_state_ids es

outcomes-categorize_one :
    (c : Categorized) (e : EndState) (index : ℕ)
    → (categorize_one c e index).outcomes ≡ map_set e.id (infer_outcome e index) c.outcomes
unfolding categorize_one
outcomes-categorize_one c e index = ground arith

map_get-categorize_from :
    (c : Categorized) (index : ℕ) (es : List EndState) (id : String)
    → has id (end_state_ids es) ≡ false
    → map_get id (categorize_from c index es).outcomes ≡ map_get id c.outcomes
unfolding categorize_from
map_get-categorize_from c index [] id h = refl
map_get-categorize_from c index (e ∷ es) id h = ground (
  arith,
  map_get-categorize_from (categorize_one c e index) (suc index) es id,
  outcomes-categorize_one c e index,
  map_get-map_set e.id id (infer_outcome e index) c.outcomes,
)

-- The map gives every end state the outcome that its position infers.
abbrev pub Agrees : List (String × Outcome) → ℕ → List EndState → Type 0
Agrees outcomes index [] = Unit
Agrees outcomes index (e ∷ es) =
    (map_get e.id outcomes ≡ some (infer_outcome e index)) × Agrees outcomes (suc index) es

Agrees-categorize_from :
    (c : Categorized) (index : ℕ) (es : List EndState)
    → IsDistinct (end_state_ids es)
    → Agrees (categorize_from c index es).outcomes index es
unfolding categorize_from
Agrees-categorize_from c index [] d = tt
Agrees-categorize_from c index (e ∷ es) (fresh, d) = (
  map_get-categorize_from (categorize_one c e index) (suc index) es e.id fresh
      ∙ ground (
        arith,
        outcomes-categorize_one c e index,
        map_get-map_set e.id e.id (infer_outcome e index) c.outcomes,
        eq_refl e.id,
      ),
  Agrees-categorize_from (categorize_one c e index) (suc index) es d,
)

pub categorize_end_states-Agrees :
    (es : List EndState)
    → IsDistinct (end_state_ids es)
    → Agrees (categorize_end_states es).outcomes 0 es
unfolding categorize_end_states
categorize_end_states-Agrees es d = Agrees-categorize_from _ 0 es d

-- Each end state is the first one with its id.
abbrev pub AreFirst : List EndState → List EndState → Type 0
AreFirst all es = All (λ e. find? (λ f. f.id == e.id) all ≡ some e) es

AreFirst-cons :
    (x : EndState) (all es : List EndState)
    → has x.id (end_state_ids es) ≡ false
    → AreFirst all es
    → AreFirst (x ∷ all) es
AreFirst-cons x all [] h k = tt
AreFirst-cons x all (e ∷ es) h (p, k) =
    (ground (arith, eq_iff x.id e.id, eq_iff e.id x.id), AreFirst-cons x all es (ground arith) k)

pub AreFirst-self : (es : List EndState) → IsDistinct (end_state_ids es) → AreFirst es es
AreFirst-self [] d = tt
AreFirst-self (e ∷ es) (fresh, d) =
    (ground (arith, eq_refl e.id), AreFirst-cons e es es fresh (AreFirst-self es d))
