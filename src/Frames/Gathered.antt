-- ===== src/Frames/Gathered.antt =====
-- What the search from the tool frames collects: the names of the frames that it starts from and of
-- those that links lead to.
use multi_robot_supervision.Prelude.{
  ℕ, zero, suc, ◌+◌, ◌≤◌, String, some, true, false, List, [], ◌∷◌, ◌||◌, not, ◌==◌, ◌≡◌, ◌⊎◌, inl,
  inr, refl, subst, sym, ap, arith, eq_iff, if_split, if_keeps, has, set_add, add_all, filter,
  length, has-set_add, has-add_all, Bool-cases, All, All-append, map,
}
use multi_robot_supervision.Prelude.Keeps.{All-filter, All-add_all}
use multi_robot_supervision.Frames.Search.{Links, links_of, push_new, Gathering, visit, gather}
use multi_robot_supervision.Frames.Reached.{is_done, weight, weight-visited, length-push_new}
use multi_robot_supervision.Frames.Chains.{Leads, Leads-last, has-push_new, All-has}

pub has-map :
    (name : String → String) (x : String) (xs : List String)
    → has x xs ≡ true
    → has (name x) (map name xs) ≡ true
has-map name x [] h = absurd (cc h)
has-map name x (y ∷ ys) h = elim (Bool-cases (y == x)) [
  | inl e ↦
      let same : y ≡ x = ground (arith, eq_iff y x) in
      ground (arith, eq_iff (name y) (name x), ap name same)
  | inr e ↦ ground (arith, has-map name x ys (ground arith))
]

module _ (name : String → String) (links : Links) where
  visit_remains :
      (visited : List String) (current : String) (queue collected : List String)
      → let next = visit name links visited current queue collected in
        length (next.queue) + weight links (next.visited) ≤ length queue + weight links visited
  unfolding visit
  visit_remains visited current queue collected =
      let P = λ (g : Gathering).
        length (g.queue) + weight links (g.visited) ≤ length queue + weight links visited in
      if_split P (has current visited) (λ h. ground arith)
        (λ h. ground (
          arith,
          weight-visited links visited current h,
          length-push_new (set_add visited current) (links_of links current) queue,
        ))

  pub gather_done :
      (fuel : ℕ) (visited queue collected : List String)
      → length queue + weight links visited ≤ fuel
      → is_done (gather name links fuel visited queue collected) ≡ true
  unfolding gather
  gather_done fuel visited [] collected h = refl
  gather_done zero visited (current ∷ queue) collected h = ground arith
  gather_done (suc fuel) visited (current ∷ queue) collected h =
      let next = visit name links visited current queue collected in
      gather_done fuel (next.visited) (next.queue) (next.collected)
        (ground (arith, visit_remains visited current queue collected))

  module _ (roots : List String) where
    -- A root, or a frame that links lead to from a root.
    abbrev pub From : String → Type 0
    From x = (r : String) × (has r roots ≡ true) × ((x ≡ r) ⊎ Leads links x r)

    abbrev pub Named : String → Type 0
    Named s = (x : String) × (name x ≡ s) × From x

    From-link : (x y : String) → From x → has y (links_of links x) ≡ true → From y
    From-link x y (r, m, inl e) h =
        (r, m, inr (Leads.link r (subst (λ z. has y (links_of links z) ≡ true) e h)))
    From-link x y (r, m, inr l) h = (r, m, inr (Leads-last links x y l h))

    pub All-Named : (xs : List String) → All From xs → All Named (map name xs)
    All-Named [] h = tt
    All-Named (x ∷ xs) (f, h) = ((x, refl, f), All-Named xs h)

    visit_sound :
        (visited : List String) (current : String) (queue collected : List String)
        → From current
        → All From queue
        → All Named collected
        → let next = visit name links visited current queue collected in
          All From (next.queue) × All Named (next.collected)
    unfolding visit push_new
    visit_sound visited current queue collected f fs ns =
        let found = links_of links current in
        let seen = set_add visited current in
        let from = All-has From found (λ y m. From-link current y f m) in
        if_keeps (λ (g : Gathering). All From (g.queue) × All Named (g.collected))
          (has current visited) (fs, ns)
          (
            All-append From queue (filter (λ x. not (has x seen)) found) fs
                (All-filter From (λ x. not (has x seen)) found from),
            All-add_all Named collected (map name found) ns (All-Named found from),
          )

    pub gather_sound :
        (fuel : ℕ) (visited queue collected : List String)
        → All From queue
        → All Named collected
        → {out : List String} → gather name links fuel visited queue collected ≡ some out
        → All Named out
    unfolding gather
    gather_sound fuel visited [] collected fs ns e = subst (All Named) (cc e) ns
    gather_sound zero visited (current ∷ queue) collected fs ns e = absurd (cc e)
    gather_sound (suc fuel) visited (current ∷ queue) collected fs ns e =
        let next = visit name links visited current queue collected in
        let kept = visit_sound visited current queue collected (fs.0) (fs.1) ns in
        gather_sound fuel (next.visited) (next.queue) (next.collected) (kept.0) (kept.1) e

    -- What was visited is linked only to frames that were visited or wait, whose names are collected; so
    -- are the roots.
    abbrev pub IsClosed : List String → List String → List String → Type 0
    IsClosed v q c =
        ((x y : String)
          → has x v ≡ true
          → has y (links_of links x) ≡ true
          → ((has y v || has y q) ≡ true) × (has (name y) c ≡ true))
        × ((r : String)
            → has r roots ≡ true
            → ((has r v || has r q) ≡ true) × (has (name r) c ≡ true))

    module _ (visited : List String) (current : String) (queue collected : List String) where
      waits :
          (y : String)
          → has current visited ≡ true
          → (has y visited || has y (current ∷ queue)) ≡ true
          → (has y visited || has y queue) ≡ true
      waits y h k = ground (arith, eq_iff y current, eq_iff current y)

      passes :
          (y : String)
          → (has y visited || has y (current ∷ queue)) ≡ true
          → let seen = set_add visited current in
            (has y seen || has y (push_new seen (links_of links current) queue)) ≡ true
      passes y k = ground (
        arith,
        has-set_add y visited current,
        has-push_new y (set_add visited current) (links_of links current) queue,
        eq_iff y current,
        eq_iff current y,
      )

      keeps :
          (s : String)
          → has s collected ≡ true
          → has s (add_all collected (map name (links_of links current))) ≡ true
      keeps s h = ground (arith, has-add_all s collected (map name (links_of links current)))

      pushed :
          (x y : String)
          → has x (set_add visited current) ≡ true
          → has x visited ≡ false
          → has y (links_of links x) ≡ true
          → let seen = set_add visited current in
            let found = links_of links current in
            ((has y seen || has y (push_new seen found queue)) ≡ true)
            × (has (name y) (add_all collected (map name found)) ≡ true)
      pushed x y m k l =
          let e : current ≡ x =
            ground (arith, m, has-set_add x visited current, eq_iff current x) in
          let from = subst (λ z. has y (links_of links z) ≡ true) (sym e) l in
          let found = links_of links current in
          (
            ground (arith, from, has-push_new y (set_add visited current) found queue),
            ground
                (arith, has-add_all (name y) collected (map name found), has-map name y found from),
          )

      visit-IsClosed :
          IsClosed visited (current ∷ queue) collected
          → let next = visit name links visited current queue collected in
            IsClosed (next.visited) (next.queue) (next.collected)
      unfolding visit
      visit-IsClosed (closed, begun) =
          if_split (λ (g : Gathering). IsClosed (g.visited) (g.queue) (g.collected))
            (has current visited)
            (λ h. (
              (λ x y m l. let c = closed x y m l in (waits y h (c.0), c.1)),
              (λ r m. let c = begun r m in (waits r h (c.0), c.1)),
            ))
            (λ h. (
              (λ x y m l. elim (Bool-cases (has x visited)) [
                | inl k ↦ let c = closed x y k l in (passes y (c.0), keeps (name y) (c.1))
                | inr k ↦ pushed x y m k l
              ]),
              (λ r m. let c = begun r m in (passes r (c.0), keeps (name r) (c.1))),
            ))

    gather-IsClosed :
        (fuel : ℕ) (visited queue collected : List String)
        → IsClosed visited queue collected
        → {out : List String} → gather name links fuel visited queue collected ≡ some out
        → (v : List String) × IsClosed v [] out
    unfolding gather
    gather-IsClosed fuel visited [] collected c e = (visited, subst (IsClosed visited []) (cc e) c)
    gather-IsClosed zero visited (current ∷ queue) collected c e = absurd (cc e)
    gather-IsClosed (suc fuel) visited (current ∷ queue) collected c e =
        let next = visit name links visited current queue collected in
        gather-IsClosed fuel (next.visited) (next.queue) (next.collected)
          (visit-IsClosed visited current queue collected c) e

    Leads-visited :
        (v out : List String)
        → IsClosed v [] out
        → {x r : String} → has r v ≡ true
        → Leads links x r
        → has (name x) out ≡ true
    Leads-visited v out c {x = x} m (Leads.link r l) = (c.0 r x m l).1
    Leads-visited v out c {x = x} m (Leads.via r d l rest) =
        Leads-visited v out c (ground (arith, (c.0 r d m l).0)) rest

    -- Whatever the search gives, it has the names of the roots and of all that links lead to from them.
    pub gather_complete :
        (fuel : ℕ) (visited queue collected : List String)
        → IsClosed visited queue collected
        → {out : List String} → gather name links fuel visited queue collected ≡ some out
        → (x : String) → From x
        → has (name x) out ≡ true
    gather_complete fuel visited queue collected c {out} e x (r, m, inl same) =
        let (v, k) = gather-IsClosed fuel visited queue collected c e in
        subst (λ z. has (name z) out ≡ true) (sym same) ((k.1 r m).1)
    gather_complete fuel visited queue collected c {out} e x (r, m, inr l) =
        let (v, k) = gather-IsClosed fuel visited queue collected c e in
        Leads-visited v out k (ground (arith, (k.1 r m).0)) l
