-- ===== src/Graph/Drop/Laws.antt =====
-- Dropping the start event again leaves one start node and one edge out of it.
use multi_robot_supervision.Prelude.{
  String, none, some, Bool, true, false, List, [], ◌∷◌, ◌++◌, not, ◌==◌, ◌&&◌, ◌≡◌, refl, subst,
  sym, ap, ◌∙◌, Bool-cases, arith, filter, find?, any, length, is_blank, Option-cases, inl, inr,
  eq_iff, leb,
}
use multi_robot_supervision.Graph.Types.{Position, Node, Edge}
use multi_robot_supervision.Graph.Collect.{start_node_id}
use multi_robot_supervision.Graph.Load.EndStates.{Context}
use multi_robot_supervision.Graph.Edit.{Canvas}
use multi_robot_supervision.Graph.Drop.{
  PaletteItem, is_start_event, dropped_start_node, entry_again, drop_start, on_drop,
}

abbrev pub is_start : Node → Bool
is_start n = n.id == start_node_id

abbrev pub from_start : Edge → Bool
from_start e = e.source == start_node_id

abbrev pub to_start : Edge → Bool
to_start e = e.target == start_node_id

-- The step that the start node leads to.
abbrev pub entry_of : List Edge → String
entry_of edges = elim (find? (λ e. from_start e && not (is_blank (e.target))) edges) [
  | none ↦ ""
  | some e ↦ e.target
]

starts_after :
    (new : Node) (ns : List Node)
    → is_start new ≡ true
    → length (filter is_start (filter (λ n. not (n.id == start_node_id)) ns ++ new ∷ [])) ≡ 1
starts_after new [] h = ground arith
starts_after new (n ∷ ns) h = ground (arith, starts_after new ns h)

abbrev kept : List Edge → List Edge
kept = filter (λ e. not (e.source == start_node_id) && not (e.target == start_node_id))

kept_any : (es ys : List Edge) → any to_start (kept es ++ ys) ≡ any to_start ys
kept_any [] ys = refl
kept_any (e ∷ es) ys = ground (arith, kept_any es ys)

kept_count :
    (es ys : List Edge) → length (filter from_start (kept es ++ ys)) ≡ length (filter from_start ys)
kept_count [] ys = refl
kept_count (e ∷ es) ys = ground (arith, kept_count es ys)

kept_entry : (es ys : List Edge) → entry_of (kept es ++ ys) ≡ entry_of ys
kept_entry [] ys = refl
kept_entry (e ∷ es) ys = ground (arith, kept_entry es ys)

find_holds :
    (es : List Edge) (e : Edge)
    → find? (λ x. from_start x && not (is_blank (x.target))) es ≡ some e
    → any to_start es ≡ false
    → (is_blank (e.target) ≡ false) × (to_start e ≡ false)
find_holds [] e h k = absurd (cc h)
find_holds (x ∷ es) e h k = elim (Bool-cases (from_start x && not (is_blank (x.target)))) [
  | inl t ↦
      let same : x ≡ e = ground (arith, h) in
      subst (λ y. (is_blank (y.target) ≡ false) × (to_start y ≡ false)) same
        (ground arith, ground arith)
  | inr f ↦ find_holds es e (ground (arith, h)) (ground arith)
]

module _ (c : Context) (editing : Bool) (id : String) (position : Position) where
  on_drop-drop_start :
      (item : PaletteItem) (canvas : Canvas)
      → is_start_event item ≡ true
      → on_drop c editing id position (some item) canvas ≡ drop_start c editing id position canvas
  unfolding on_drop
  on_drop-drop_start item canvas start =
      let e : item.type ≡ "event" = ground (arith, eq_iff (item.type) "event") in
      let other : (item.type == "retry") ≡ false =
        subst (λ t. (t == "retry") ≡ false) (sym e) refl in
      ground (arith, other)

  -- The edge that is added back: to where the first one with a target led.
  again :
      (edges : List Edge)
      → any to_start edges ≡ false
      → let ys =
          entry_again c editing id position
            (find? (λ x. from_start x && not (is_blank (x.target))) edges) in
        (any to_start ys ≡ false)
        × (leb (length (filter from_start ys)) 1 ≡ true)
        × (entry_of ys ≡ entry_of edges)
  unfolding entry_again
  again edges none_in =
      elim (Option-cases (find? (λ x. from_start x && not (is_blank (x.target))) edges)) [
        | inl h ↦ ground arith
        | inr (e, h) ↦ let held = find_holds edges e h none_in in ground (arith, held.0, held.1)
      ]

  -- If no edge leads into the start node, dropping the start event leaves exactly one start node, no
  -- edge into it and at most one out of it, which leads where the first one with a target led before.
  pub on_drop_start :
      (item : PaletteItem) (canvas : Canvas)
      → is_start_event item ≡ true
      → any to_start (canvas.edges) ≡ false
      → let after = on_drop c editing id position (some item) canvas in
        (length (filter is_start (after.nodes)) ≡ 1)
        × (any to_start (after.edges) ≡ false)
        × (leb (length (filter from_start (after.edges))) 1 ≡ true)
        × (entry_of (after.edges) ≡ entry_of (canvas.edges))
  unfolding drop_start dropped_start_node
  on_drop_start item canvas start none_in =
      let edges = canvas.edges in
      let ys =
        entry_again c editing id position
          (find? (λ x. from_start x && not (is_blank (x.target))) edges) in
      let back = again edges none_in in
      let new = dropped_start_node c editing id position in
      subst
        (λ (after : Canvas).
          (length (filter is_start (after.nodes)) ≡ 1)
          × (any to_start (after.edges) ≡ false)
          × (leb (length (filter from_start (after.edges))) 1 ≡ true)
          × (entry_of (after.edges) ≡ entry_of edges))
        (sym (on_drop-drop_start item canvas start))
        (
          starts_after new (canvas.nodes) refl,
          kept_any edges ys ∙ back.0,
          ap (λ n. leb n 1) (kept_count edges ys) ∙ back.1,
          kept_entry edges ys ∙ back.2,
        )
