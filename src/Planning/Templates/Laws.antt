-- ===== src/Planning/Templates/Laws.antt =====
-- What the expanded names are, and which states are created.
use multi_robot_supervision.Prelude.{
  String, Bool, true, false, List, [], ◌∷◌, map, ◌≡◌, refl, ap, ◌∙◌, arith, eq_iff, ◌&&◌, ◌==◌, not,
  filter, is_empty, uniq, has, has-uniq, is_blank, trim, All, IsDistinct, uniq-IsDistinct,
  Bool-cases, inl, inr, if_keeps, if_split,
}
use multi_robot_supervision.Prelude.Trim.{trim-trim}
use multi_robot_supervision.Prelude.Keeps.{All-filter, filter-All, All-uniq, filter-IsDistinct}
use multi_robot_supervision.Planning.{State, Resource, AgentOption, is_resource_instance}
use multi_robot_supervision.Planning.Templates.{
  expand_state_name_by_template, tidy_names, is_text, AddState, handle_add_state, add_names,
  target_names, names_of, has_resource_placeholder, has_agent_placeholder, unique_agents,
  listed_agent,
}

-- Names that can be given to states: distinct, not empty, and without white space around them.
abbrev pub AreNames : List String → Type 0
AreNames names =
    IsDistinct names × All (λ n. is_blank n ≡ false) names × All (λ n. trim n ≡ n) names

not-blank :
    (names : List String) → All (λ n. is_text n ≡ true) names → All (λ n. is_blank n ≡ false) names
not-blank [] h = tt
not-blank (n ∷ ns) (k, h) = (ground arith, not-blank ns h)

tidy_names-AreNames : (names : List String) → AreNames (tidy_names names)
unfolding tidy_names
tidy_names-AreNames names =
    let texts = filter is_text (map trim names) in
    (
      uniq-IsDistinct texts,
      not-blank (uniq texts)
          (All-uniq (λ n. is_text n ≡ true) texts (filter-All is_text (map trim names))),
      All-uniq (λ n. trim n ≡ n) texts
          (All-filter (λ n. trim n ≡ n) is_text (map trim names) (trimmed names)),
    )
  where
    trimmed : (l : List String) → All (λ n. trim n ≡ n) (map trim l)
    trimmed [] = tt
    trimmed (x ∷ l) = (trim-trim x, trimmed l)

-- Whatever the template, the resources and the agents, expanding gives distinct names that are not
-- empty and have no white space around them.
pub expand_state_name-AreNames :
    (template : String) (resources : List Resource) (agents : List AgentOption)
    → AreNames (expand_state_name_by_template template resources agents)
unfolding expand_state_name_by_template
expand_state_name-AreNames template resources agents =
    let trimmed = trim template in
    if_split AreNames (is_blank trimmed) (λ _. (tt, tt, tt))
      (λ text.
        if_keeps AreNames
          (not (has_resource_placeholder trimmed) && not (has_agent_placeholder trimmed))
          ((refl, tt), (text, tt), (trim-trim template, tt))
          (if_keeps AreNames
            (has_resource_placeholder trimmed && is_empty (filter is_resource_instance resources))
            (tt, tt, tt)
            (if_keeps AreNames (has_agent_placeholder trimmed && is_empty (unique_agents agents))
              (tt, tt, tt) (tidy_names-AreNames _))))

-- The names that a form creates.
abbrev pub created : AddState → List String
created AddState.nothing = []
created (AddState.message m) = []
created (AddState.create names type value notice) = names

has-filter :
    (n : String) (p : String → Bool) (xs : List String) → has n (filter p xs) ≡ (has n xs && p n)
has-filter n p [] = refl
has-filter n p (x ∷ xs) = elim (Bool-cases (x == n)) [
  | inl same ↦
      let equal : x ≡ n = (eq_iff x n).0 same in ground (arith, has-filter n p xs, ap p equal)
  | inr other ↦ ground (arith, has-filter n p xs)
]

created-add_names :
    (states : List State) (expanded : List String) (type value : String)
    → created (add_names states expanded type value) ≡ target_names states (uniq expanded)
unfolding add_names
created-add_names states expanded type value = ground arith

blank-expand :
    (template : String) (resources : List Resource) (agents : List AgentOption)
    → is_blank (trim template) ≡ true
    → expand_state_name_by_template template resources agents ≡ []
unfolding expand_state_name_by_template
blank-expand template resources agents h = rw h refl

empty : (xs : List String) → is_empty xs ≡ true → xs ≡ []
empty [] h = refl
empty (x ∷ xs) h = cc

targets-empty :
    (states : List State) (xs : List String) → xs ≡ [] → [] ≡ target_names states (uniq xs)
unfolding uniq
targets-empty states xs h = rw h refl

-- The form creates exactly the expanded names that no state of the distributor has, each once.
pub handle_add_state-created :
    (states : List State) (resources : List Resource) (agents : List AgentOption)
    (new_name type value n : String)
    → let made = created (handle_add_state states resources agents new_name type value) in
      IsDistinct made
      × (has n made ≡ (
          has n (expand_state_name_by_template (trim new_name) resources (map listed_agent agents))
          && not (has n (names_of states))))
unfolding handle_add_state
handle_add_state-created states resources agents new_name type value n =
    let listed = map listed_agent agents in
    let expanded = expand_state_name_by_template (trim new_name) resources listed in
    let wanted = target_names states (uniq expanded) in
    let result : created (handle_add_state states resources agents new_name type value) ≡ wanted =
      if_split (λ r. created r ≡ wanted) (is_blank (trim new_name))
        (λ blank. targets-empty states expanded (
          blank-expand (trim new_name) resources listed (ap is_blank (trim-trim new_name) ∙ blank)))
        (λ _.
          if_split (λ r. created r ≡ wanted) (is_empty expanded)
            (λ none. targets-empty states expanded (empty expanded none))
            (λ _. created-add_names states expanded type value)) in
    rw result (
      filter-IsDistinct (λ m. not (has m (names_of states))) (uniq expanded)
          (uniq-IsDistinct expanded),
      ground (
        arith,
        has-filter n (λ m. not (has m (names_of states))) (uniq expanded),
        has-uniq n expanded,
      ),
    )
