-- ===== src/Frames/Laws.antt =====
-- `hasAncestorFrame` answers, and what it answers: whether a chain of links leads from the one frame to
-- the other.
use multi_robot_supervision.Prelude.{
  suc, ◌+◌, ◌≤◌, String, Option, some, Bool, true, false, [], ◌∷◌, ◌||◌, ◌==◌, ◌≡◌, ◌⊎◌, ◌↔◌, inl,
  inr, refl, subst, arith, eq_iff, if◌then◌else◌, if_keeps, length, Option-cases, Bool-cases,
  is_blank,
}
use multi_robot_supervision.Frames.Text.{normalize_frame_name}
use multi_robot_supervision.Frames.Search.{Links, size, search, has_ancestor_frame}
use multi_robot_supervision.Frames.Reached.{is_done, weight, weight-size, search_done}
use multi_robot_supervision.Frames.Chains.{Leads, search_sound}
use multi_robot_supervision.Frames.Closed.{first-IsClosed, search-IsClosed, closed_misses}

first_weight :
    (links : Links) (start : String) → length (start ∷ []) + weight links [] ≤ suc (size links)
first_weight links start = ground (arith, weight-size links)

-- `hasAncestorFrame` always ends: whatever the links, also where they go round in circles, the search
-- answers before its fuel runs out.
pub has_ancestor_frame_ends :
    (start_frame target_ancestor : String) (links : Links)
    → is_done (has_ancestor_frame start_frame target_ancestor links) ≡ true
unfolding has_ancestor_frame
has_ancestor_frame_ends start_frame target_ancestor links =
    let start = normalize_frame_name start_frame in
    let target = normalize_frame_name target_ancestor in
    let P = λ (o : Option Bool). is_done o ≡ true in
    if_keeps P (is_blank start || is_blank target) refl (
      if_keeps P (start == target) refl
        (search_done links target (suc (size links)) [] (start ∷ []) (first_weight links start)))

search_lem :
    (links : Links) (target start : String)
    → (search links target (suc (size links)) [] (start ∷ []) ≡ some true)
      ↔ Leads links target start
search_lem links target start = (
  search_sound links target start (suc (size links)) [] (start ∷ []) (inl refl, tt),
  λ l. elim (Option-cases (search links target (suc (size links)) [] (start ∷ []))) [
    | inl e ↦
        let d =
          subst (λ o. is_done o ≡ true) e
            (search_done links target (suc (size links)) [] (start ∷ [])
              (first_weight links start)) in
        absurd (cc d)
    | inr (true, e) ↦ e
    | inr (false, e) ↦
        let (v, (closed, m)) =
          search-IsClosed links target start (suc (size links)) [] (start ∷ [])
            (first-IsClosed links target start) e in
        absurd (closed_misses links target start v closed (ground (arith, m)) l)
  ],
)

guards :
    (b c : Bool) (s t : String) (o : Option Bool) (L : Type 0)
    → (o ≡ some true) ↔ L
    → ((if b || c then some false else if s == t then some true else o) ≡ some true)
      ↔ ((b ≡ false) × (c ≡ false) × ((s ≡ t) ⊎ L))
guards true c s t o L h = ((λ e. absurd (cc e)), λ k. absurd (cc (k.0)))
guards false true s t o L h = ((λ e. absurd (cc e)), λ k. absurd (cc (k.1)))
guards false false s t o L h = elim (Bool-cases (s == t)) [
  | inl e ↦ ((λ k. (refl, refl, inl (ground (arith, eq_iff s t)))), λ k. ground arith)
  | inr e ↦ (
    (λ k. (refl, refl, inr (h.0 (ground arith)))),
    λ k. elim (k.2) [ inl q ↦ absurd (ground (arith, eq_iff s t)) | inr l ↦ ground (arith, h.1 l) ],
  )
]

-- `hasAncestorFrame` answers yes exactly when both names are not empty once normalized, and they are
-- the same or a chain of links leads from the first to the second.
pub has_ancestor_frame-Leads :
    (start_frame target_ancestor : String) (links : Links)
    → let start = normalize_frame_name start_frame in
      let target = normalize_frame_name target_ancestor in
      (has_ancestor_frame start_frame target_ancestor links ≡ some true) ↔ (
        (is_blank start ≡ false)
        × (is_blank target ≡ false)
        × ((start ≡ target) ⊎ Leads links target start))
unfolding has_ancestor_frame
has_ancestor_frame-Leads start_frame target_ancestor links =
    let start = normalize_frame_name start_frame in
    let target = normalize_frame_name target_ancestor in
    guards (is_blank start) (is_blank target) start target
      (search links target (suc (size links)) [] (start ∷ [])) (Leads links target start)
      (search_lem links target start)
