-- ===== src/Frames/Search.antt =====
-- The two breadth-first searches. Each pass takes the first frame of the queue; a frame that was visited
-- is passed over.
use multi_robot_supervision.Prelude.{
  ℕ, zero, suc, ◌+◌, String, Option, none, some, Bool, true, false, List, [], ◌∷◌, ◌++◌, ◌||◌, not,
  ◌==◌, if◌then◌else◌, has, set_add, filter, length, is_blank, map, add_all,
}
use multi_robot_supervision.Prelude.Maps.{map_get}
use multi_robot_supervision.Frames.Text.{normalize_frame_name}

-- Map<string, Set<string>>
abbrev pub Links : Type 0
Links = List (String × List String)

-- The frames that a frame is linked to.
abbrev pub links_of : Links → String → List String
links_of links frame = elim (map_get frame links) [ none ↦ [] | some found ↦ found ]

-- The frames among `found` that were not visited, behind the queue.
unfoldable pub push_new : List String → List String → List String → List String
push_new visited found queue = queue ++ filter (λ f. not (has f visited)) found

-- All the links, counted: the fuel of a search beyond the length of its queue.
abbrev pub size : Links → ℕ
size [] = 0
size ((frame, found) ∷ links) = length found + size links

-- What one pass of the loop of `hasAncestorFrame` does.
pub data Turn : Type 0 where
  hit : Turn
  go : List String → List String → Turn

module _ (links : Links) (target : String) where
  unfoldable pub turn : List String → String → List String → Turn
  unfolding push_new
  turn visited current queue =
      let seen = set_add visited current in
      if has current visited then Turn.go visited queue else elim (map_get current links) [
        | none ↦ Turn.go seen queue
        | some found ↦
            if has target found then Turn.hit else Turn.go seen (push_new seen found queue)
      ]

  -- The loop; `none` is a search that runs out of fuel.
  unfoldable pub search : ℕ → List String → List String → Option Bool
  unfolding turn
  search fuel visited [] = some false
  search zero visited (current ∷ queue) = none
  search (suc fuel) visited (current ∷ queue) = elim (turn visited current queue) [
    | Turn.hit ↦ some true
    | Turn.go v q ↦ search fuel v q
  ]

unfoldable pub has_ancestor_frame : String → String → Links → Option Bool
unfolding search
has_ancestor_frame start_frame target_ancestor child_to_parents =
    let start = normalize_frame_name start_frame in
    let target = normalize_frame_name target_ancestor in
    if is_blank start || is_blank target
    then some false
    else if start == target
    then some true
    else search child_to_parents target (suc (size child_to_parents)) [] (start ∷ [])

-- The loop that collects the children of the tool frames: what was visited, the queue, and the names
-- collected so far.
pub record Gathering : Type 0 where
  pub visited : List String
  pub queue : List String
  pub collected : List String

module _ (name : String → String) (links : Links) where
  unfoldable pub visit : List String → String → List String → List String → Gathering
  unfolding push_new
  visit visited current queue collected =
      let seen = set_add visited current in
      let found = links_of links current in
      if has current visited
      then record { visited = visited; queue = queue; collected = collected }
      else record {
        visited = seen;
        queue = push_new seen found queue;
        collected = add_all collected (map name found);
      }

  -- The loop; `none` is a search that runs out of fuel.
  unfoldable pub gather : ℕ → List String → List String → List String → Option (List String)
  unfolding visit
  gather fuel visited [] collected = some collected
  gather zero visited (current ∷ queue) collected = none
  gather (suc fuel) visited (current ∷ queue) collected =
      let next = visit visited current queue collected in
      gather fuel (next.visited) (next.queue) (next.collected)
