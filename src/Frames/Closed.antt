-- ===== src/Frames/Closed.antt =====
-- A search that finds nothing has followed every chain of links.
use multi_robot_supervision.Prelude.{
  ℕ, zero, suc, String, some, true, false, List, [], ◌∷◌, ◌||◌, ◌==◌, ◌≡◌, inl, inr, subst, sym,
  arith, eq_iff, eq_refl, if_split, has, set_add, has-set_add, Bool-cases,
}
use multi_robot_supervision.Frames.Search.{Links, links_of, push_new, Turn, turn, search}
use multi_robot_supervision.Frames.Chains.{Leads, has-push_new, turn_lem}

module _ (links : Links) (target start : String) where
  -- What was visited is linked only to frames that were visited or wait in the queue, and not to the
  -- target; and the start is among them.
  abbrev pub IsClosed : List String → List String → Type 0
  IsClosed v q =
      ((x y : String)
        → has x v ≡ true
        → has y (links_of links x) ≡ true
        → ((y == target) ≡ false) × ((has y v || has y q) ≡ true))
      × ((has start v || has start q) ≡ true)

  abbrev KeepsClosed : Turn → Type 0
  KeepsClosed Turn.hit = Unit
  KeepsClosed (Turn.go v q) = IsClosed v q

  other : (x y : String) (xs : List String) → has x xs ≡ false → has y xs ≡ true → (y == x) ≡ false
  other x y xs h k = elim (Bool-cases (y == x)) [
    | inl e ↦ absurd (ground (arith, eq_iff y x))
    | inr e ↦ e
  ]

  pass_closed :
      (visited : List String) (current : String) (queue : List String)
      → ((x y : String)
          → has x visited ≡ true
          → has y (links_of links x) ≡ true
          → ((y == target) ≡ false) × ((has y visited || has y (current ∷ queue)) ≡ true))
      → has target (links_of links current) ≡ false
      → (x y : String) → has x (set_add visited current) ≡ true
      → has y (links_of links x) ≡ true
      → let seen = set_add visited current in
        ((y == target) ≡ false)
        × ((has y seen || has y (push_new seen (links_of links current) queue)) ≡ true)
  pass_closed visited current queue closed missing x y m l =
      let found = links_of links current in
      let seen = set_add visited current in
      elim (Bool-cases (has x visited)) [
        | inl k ↦
            let c = closed x y k l in
            (
              c.0,
              ground (
                arith,
                c.1,
                has-set_add y visited current,
                has-push_new y seen found queue,
                eq_iff y current,
                eq_iff current y,
              ),
            )
        | inr k ↦
            let e : current ≡ x =
              ground (arith, m, has-set_add x visited current, eq_iff current x) in
            let from = subst (λ z. has y (links_of links z) ≡ true) (sym e) l in
            (
              other target y found missing from,
              ground (arith, from, has-push_new y seen found queue),
            )
      ]

  turn-IsClosed :
      (visited : List String) (current : String) (queue : List String)
      → IsClosed visited (current ∷ queue)
      → KeepsClosed (turn links target visited current queue)
  turn-IsClosed visited current queue (closed, begun) =
      let found = links_of links current in
      let seen = set_add visited current in
      subst KeepsClosed (sym (turn_lem links target visited current queue)) (
        if_split KeepsClosed (has current visited)
          (λ h. (
            (λ x y m l.
                let c = closed x y m l in
                ((c.0), ground (arith, c.1, eq_iff y current, eq_iff current y))),
            ground (arith, begun, eq_iff start current, eq_iff current start),
          ))
          (λ fresh.
            if_split KeepsClosed (has target found) (λ h. tt)
              (λ h. (
                (λ x y m l. pass_closed visited current queue closed h x y m l),
                ground (
                  arith,
                  begun,
                  has-set_add start visited current,
                  has-push_new start seen found queue,
                  eq_iff start current,
                  eq_iff current start,
                ),
              ))))

  go-IsClosed :
      (fuel : ℕ) (t : Turn)
      → KeepsClosed t
      → ((v q : List String)
          → IsClosed v q
          → search links target fuel v q ≡ some false
          → (v : List String) × IsClosed v [])
      → (elim t [ Turn.hit ↦ some true | Turn.go v q ↦ search links target fuel v q ]) ≡ some false
      → (v : List String) × IsClosed v []
  go-IsClosed fuel Turn.hit l rest e = absurd (cc e)
  go-IsClosed fuel (Turn.go v q) c rest e = rest v q c e

  -- A search that finds nothing has visited the start and everything that its links lead to.
  pub search-IsClosed :
      (fuel : ℕ) (visited queue : List String)
      → IsClosed visited queue
      → search links target fuel visited queue ≡ some false
      → (v : List String) × IsClosed v []
  unfolding search
  search-IsClosed fuel visited [] c e = (visited, c)
  search-IsClosed zero visited (current ∷ queue) c e = absurd (cc e)
  search-IsClosed (suc fuel) visited (current ∷ queue) c e =
      go-IsClosed fuel (turn links target visited current queue)
        (turn-IsClosed visited current queue c) (search-IsClosed fuel) e

  pub closed_misses :
      (v : List String)
      → ((x y : String)
          → has x v ≡ true
          → has y (links_of links x) ≡ true
          → ((y == target) ≡ false) × ((has y v || has y []) ≡ true))
      → {x : String} → has x v ≡ true
      → ¬ (Leads links target x)
  closed_misses v closed m (Leads.link x l) = ground (arith, closed x target m l, eq_refl target)
  closed_misses v closed m (Leads.via x c l rest) =
      closed_misses v closed (ground (arith, closed x c m l)) rest

  pub first-IsClosed : IsClosed [] (start ∷ [])
  first-IsClosed = ((λ x y m h. absurd (cc m)), ground (arith, eq_refl start))
