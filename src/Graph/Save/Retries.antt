-- ===== src/Graph/Save/Retries.antt =====
-- The retry blocks that saving looks up, and where they lead.
use mathlib.Core.Path.{subst}
use multi_robot_supervision.Prelude.{
  String, none, some, Bool, true, false, List, [], ◌∷◌, ◌≡◌, ◌⊎◌, inl, inr, refl, arith, eq_iff,
  ◌==◌, ◌&&◌, ◌||◌, if◌then◌else◌, any, has, find?, All, not, Option-cases, Bool-cases,
}
use multi_robot_supervision.Prelude.Maps.{map_get, map_set, map_get-map_set}
use multi_robot_supervision.Graph.Types.{Node, Edge}
use multi_robot_supervision.Graph.Collect.{
  is_retry, retry_map, retry_nodes, resolve_retry_edge, outgoing, handle_is, is_legacy_fallback,
  target_of,
}

abbrev pub is_retry_at : String → Node → Bool
is_retry_at id n = is_retry n && (n.id == id)

retry_map_sound :
    (id : String) (m : List (String × Node)) (ns : List Node) (r : Node)
    → map_get id (retry_map m ns) ≡ some r
    → (map_get id m ≡ some r) ⊎ ((r.id ≡ id) × (any (is_retry_at id) ns ≡ true))
unfolding retry_map
retry_map_sound id m [] r h = inl h
retry_map_sound id m (n ∷ ns) r h = ground (
  arith,
  retry_map_sound id (if is_retry n then map_set n.id n m else m) ns r h,
  map_get-map_set n.id id n m,
  eq_iff n.id id,
)

-- A retry block that is found stands on the canvas, under the id that it was looked up by.
pub retry_nodes_sound :
    (id : String) (ns : List Node) (r : Node)
    → map_get id (retry_nodes ns) ≡ some r
    → (r.id ≡ id) × (any (is_retry_at id) ns ≡ true)
unfolding retry_nodes map_get
retry_nodes_sound id ns r h = ground (arith, retry_map_sound id [] ns r h)

retry_map_complete :
    (id : String) (m : List (String × Node)) (ns : List Node)
    → map_get id (retry_map m ns) ≡ none
    → (map_get id m ≡ none) × (any (is_retry_at id) ns ≡ false)
unfolding retry_map
retry_map_complete id m [] h = (h, refl)
retry_map_complete id m (n ∷ ns) h = ground (
  arith,
  retry_map_complete id (if is_retry n then map_set n.id n m else m) ns h,
  map_get-map_set n.id id n m,
  eq_iff n.id id,
)

pub retry_nodes_complete :
    (id : String) (ns : List Node)
    → map_get id (retry_nodes ns) ≡ none
    → any (is_retry_at id) ns ≡ false
unfolding retry_nodes
retry_nodes_complete id ns h = (retry_map_complete id [] ns h).1

module _ {ℓ} (P : Edge → Type ℓ) where
  pub find-All :
      (p : Edge → Bool) (xs : List Edge) (e : Edge) → All P xs → find? p xs ≡ some e → P e
  find-All p [] e h k = cc
  find-All p (x ∷ xs) e (hx, h) k = elim (Bool-cases (p x)) [
    | inl here ↦ let same : x ≡ e = ground arith in subst P same hx
    | inr later ↦ find-All p xs e h (rw later at k)
  ]

module _ (saved : List String) where
  abbrev LeadsTo : Edge → Type 0
  LeadsTo e = has e.target saved ≡ true

  found-LeadsTo :
      (p : Edge → Bool) (xs : List Edge) (t : String)
      → All LeadsTo xs
      → target_of (find? p xs) ≡ some t
      → has t saved ≡ true
  found-LeadsTo p xs t h k = elim (Option-cases (find? p xs)) [
    | inl nothing ↦ ground arith
    | inr (e, found) ↦ ground (arith, find-All LeadsTo p xs e h found)
  ]

  outgoing-LeadsTo :
      (id : String) (edges : List Edge)
      → All (λ e. (not (e.source == id) || has e.target saved) ≡ true) edges
      → All LeadsTo (outgoing edges id)
  outgoing-LeadsTo id [] h = tt
  outgoing-LeadsTo id (e ∷ es) (p, h) = ground (arith, outgoing-LeadsTo id es h)

  -- The way out of a retry block leads where its edges lead.
  pub resolve_retry_edge-leads :
      (edges : List Edge) (retry_id source_id t : String)
      → All (λ e. (not (e.source == retry_id) || has e.target saved) ≡ true) edges
      → resolve_retry_edge edges retry_id source_id ≡ some t
      → has t saved ≡ true
  unfolding resolve_retry_edge
  resolve_retry_edge-leads edges retry_id source_id t h k =
      let out = outgoing edges retry_id in
      let o = outgoing-LeadsTo retry_id edges h in
      let retry_out =
        find?
          (λ e.
            (handle_is e.source_handle "retry-out" || handle_is e.source_handle "state-out")
            && e.target == source_id)
          out in
      ground (
        arith,
        k,
        found-LeadsTo (λ e. handle_is e.source_handle "retry-failed") out t o,
        found-LeadsTo (λ e. handle_is e.source_handle "retry-warning") out t o,
        found-LeadsTo (is_legacy_fallback retry_out source_id) out t o,
      )
