-- ===== src/Frames/Reached.antt =====
-- The searches end within their fuel: every pass takes a frame off the queue, and the links of a frame
-- are pushed only once.
use multi_robot_supervision.Prelude.{
  ℕ, zero, suc, ◌+◌, ◌≤◌, String, Option, none, some, Bool, true, false, List, [], ◌∷◌, ◌++◌, not,
  ◌==◌, ◌≡◌, refl, arith, eq_iff, if◌then◌else◌, has, set_add, filter, length, has-set_add,
  Option-cases, if_split, inl, inr,
}
use multi_robot_supervision.Prelude.Maps.{map_get}
use multi_robot_supervision.Frames.Search.{Links, links_of, push_new, size, Turn, turn, search}

abbrev pub is_done {ℓ} : {A : Type ℓ} → Option A → Bool
is_done none = false
is_done (some a) = true

-- The links of the frames that were not visited, counted.
abbrev pub weight : Links → List String → ℕ
weight [] visited = 0
weight ((frame, found) ∷ links) visited =
    let rest = weight links visited in if has frame visited then rest else length found + rest

pub weight-size : (links : Links) → weight links [] ≡ size links
weight-size [] = refl
weight-size ((frame, found) ∷ links) = ground (arith, weight-size links)

weight_less :
    (links : Links) (visited : List String) (current : String)
    → weight links (set_add visited current) ≤ weight links visited
weight_less [] visited current = ground arith
weight_less ((frame, found) ∷ links) visited current =
    ground (arith, weight_less links visited current, has-set_add frame visited current)

links_of-cons :
    (frame : String) (found : List String) (links : Links) (current : String)
    → links_of ((frame, found) ∷ links) current
      ≡ (if frame == current then found else links_of links current)
unfolding map_get
links_of-cons frame found links current = ground arith

pub weight-visited :
    (links : Links) (visited : List String) (current : String)
    → has current visited ≡ false
    → weight links (set_add visited current) + length (links_of links current)
      ≤ weight links visited
unfolding map_get
weight-visited [] visited current fresh = ground arith
weight-visited ((frame, found) ∷ links) visited current fresh = ground (
  arith,
  links_of-cons frame found links current,
  weight_less links visited current,
  weight-visited links visited current fresh,
  has-set_add frame visited current,
  eq_iff frame current,
  eq_iff current frame,
)

length-append : (xs ys : List String) → length (xs ++ ys) ≡ length xs + length ys
length-append [] ys = ground arith
length-append (x ∷ xs) ys = ground (arith, length-append xs ys)

length-filter : (p : String → Bool) (xs : List String) → length (filter p xs) ≤ length xs
length-filter p [] = ground arith
length-filter p (x ∷ xs) = ground (arith, length-filter p xs)

pub length-push_new :
    (visited found queue : List String)
    → length (push_new visited found queue) ≤ length queue + length found
unfolding push_new
length-push_new visited found queue = ground (
  arith,
  length-append queue (filter (λ f. not (has f visited)) found),
  length-filter (λ f. not (has f visited)) found,
)

module _ (links : Links) (target : String) where
  -- What remains to be done after a pass.
  abbrev remains : Turn → ℕ
  remains Turn.hit = 0
  remains (Turn.go v q) = length q + weight links v

  remains-turn :
      (visited : List String) (current : String) (queue : List String)
      → remains (turn links target visited current queue) ≤ length queue + weight links visited
  unfolding turn
  remains-turn visited current queue =
      if_split (λ t. remains t ≤ length queue + weight links visited) (has current visited)
        (λ h. ground arith)
        (λ h. elim (Option-cases (map_get current links)) [
          | inl e ↦ ground (arith, weight_less links visited current)
          | inr (found, e) ↦ ground (
            arith,
            weight-visited links visited current h,
            length-push_new (set_add visited current) found queue,
          )
        ])

  go_done :
      (fuel : ℕ) (t : Turn)
      → remains t ≤ fuel
      → ((v q : List String)
          → length q + weight links v ≤ fuel
          → is_done (search links target fuel v q) ≡ true)
      → is_done (elim t [ Turn.hit ↦ some true | Turn.go v q ↦ search links target fuel v q ])
        ≡ true
  go_done fuel Turn.hit h rest = refl
  go_done fuel (Turn.go v q) h rest = rest v q h

  -- The search ends when its fuel is at least the length of the queue and the links that are left.
  pub search_done :
      (fuel : ℕ) (visited queue : List String)
      → length queue + weight links visited ≤ fuel
      → is_done (search links target fuel visited queue) ≡ true
  unfolding search
  search_done fuel visited [] h = refl
  search_done zero visited (current ∷ queue) h = ground arith
  search_done (suc fuel) visited (current ∷ queue) h =
      go_done fuel (turn links target visited current queue)
        (ground (arith, remains-turn visited current queue)) (search_done fuel)
