-- ===== src/Frames/Chains.antt =====
-- Chains of links, and what a search may find: only frames that chains lead to.
use multi_robot_supervision.Prelude.{
  ℕ, zero, suc, String, some, Bool, true, List, [], ◌∷◌, ◌||◌, ◌&&◌, not, ◌≡◌, ◌⊎◌, inl, inr, refl,
  subst, sym, arith, eq_iff, eq_refl, if◌then◌else◌, if_split, if_keeps, append-nil, has, set_add,
  filter, has-append, Option-cases, All, All-append,
}
use multi_robot_supervision.Prelude.Maps.{map_get}
use multi_robot_supervision.Prelude.Keeps.{All-filter}
use multi_robot_supervision.Frames.Search.{Links, links_of, push_new, Turn, turn, search}

-- A chain of one or more links from a frame to `b`.
pub data Leads (links : Links) (b : String) : String → Type 0 where
  link : (a : String) → has b (links_of links a) ≡ true → Leads links b a
  via : (a c : String) → has c (links_of links a) ≡ true → Leads links b c → Leads links b a

pub Leads-last :
    (links : Links) (b c : String) {a : String}
    → Leads links b a
    → has c (links_of links b) ≡ true
    → Leads links c a
Leads-last links b c (Leads.link a h) last = Leads.via a b h (Leads.link b last)
Leads-last links b c (Leads.via a d h rest) last = Leads.via a d h (Leads-last links b c rest last)

pub All-has :
    (P : String → Type 0) (xs : List String) → ((x : String) → has x xs ≡ true → P x) → All P xs
All-has P [] h = tt
All-has P (x ∷ xs) h = (h x (ground (arith, eq_refl x)), All-has P xs (λ y m. h y (ground arith)))

has-filter :
    (s : String) (p : String → Bool) (xs : List String) → has s (filter p xs) ≡ (has s xs && p s)
has-filter s p [] = refl
has-filter s p (x ∷ xs) = ground (arith, has-filter s p xs, eq_iff x s)

pub has-push_new :
    (s : String) (visited found queue : List String)
    → has s (push_new visited found queue) ≡ (has s queue || (has s found && not (has s visited)))
unfolding push_new
has-push_new s visited found queue = ground (
  arith,
  has-append s queue (filter (λ f. not (has f visited)) found),
  has-filter s (λ f. not (has f visited)) found,
)

-- A pass, by the links of the frame.
pub turn_lem :
    (links : Links) (target : String) (visited : List String) (current : String)
    (queue : List String)
    → turn links target visited current queue ≡ (
        if has current visited
        then Turn.go visited queue
        else if has target (links_of links current)
        then Turn.hit
        else Turn.go
            (set_add visited current)
            (push_new (set_add visited current) (links_of links current) queue))
unfolding turn push_new
turn_lem links target visited current queue = elim (Option-cases (map_get current links)) [
  | inl e ↦ ground (arith, append-nil queue)
  | inr (found, e) ↦ ground arith
]

module _ (links : Links) (target start : String) where
  abbrev From : String → Type 0
  From x = (x ≡ start) ⊎ Leads links x start

  From-link : (x y : String) → From x → has y (links_of links x) ≡ true → Leads links y start
  From-link x y (inl e) h = Leads.link start (subst (λ z. has y (links_of links z) ≡ true) e h)
  From-link x y (inr l) h = Leads-last links x y l h

  abbrev IsSound : Turn → Type 0
  IsSound Turn.hit = Leads links target start
  IsSound (Turn.go v q) = All From q

  -- The queue holds frames that the chains of links lead to, and a hit is such a frame.
  turn-IsSound :
      (visited : List String) (current : String) (queue : List String)
      → From current
      → All From queue
      → IsSound (turn links target visited current queue)
  unfolding push_new
  turn-IsSound visited current queue f fs =
      let found = links_of links current in
      let seen = set_add visited current in
      subst IsSound (sym (turn_lem links target visited current queue)) (
        if_keeps IsSound (has current visited) fs (
          if_split IsSound (has target found) (λ h. From-link current target f h)
            (λ h. All-append From queue (filter (λ x. not (has x seen)) found) fs (
              All-filter From (λ x. not (has x seen)) found
                (All-has From found (λ y m. inr (From-link current y f m)))))))

  go_sound :
      (fuel : ℕ) (t : Turn)
      → IsSound t
      → ((v q : List String)
          → All From q
          → search links target fuel v q ≡ some true
          → Leads links target start)
      → (elim t [ Turn.hit ↦ some true | Turn.go v q ↦ search links target fuel v q ]) ≡ some true
      → Leads links target start
  go_sound fuel Turn.hit l rest e = l
  go_sound fuel (Turn.go v q) fs rest e = rest v q fs e

  pub search_sound :
      (fuel : ℕ) (visited queue : List String)
      → All From queue
      → search links target fuel visited queue ≡ some true
      → Leads links target start
  unfolding search
  search_sound fuel visited [] fs e = absurd (cc e)
  search_sound zero visited (current ∷ queue) fs e = absurd (cc e)
  search_sound (suc fuel) visited (current ∷ queue) fs e =
      go_sound fuel (turn links target visited current queue)
        (turn-IsSound visited current queue (fs.0) (fs.1)) (search_sound fuel) e
