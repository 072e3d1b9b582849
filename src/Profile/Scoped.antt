-- ===== src/Profile/Scoped.antt =====
-- No scope of a goal is lost without a word.
use multi_robot_supervision.Prelude.{
  ℕ, String, Bool, true, List, [], ◌∷◌, not, ◌==◌, ◌≡◌, ◌&&◌, ◌||◌, refl, ap, arith, eq_iff, filter,
  map, is_blank, has, set_add, has-set_add, has-uniq, any, Bool-cases, inl, inr,
}
use multi_robot_supervision.Profile.Scopes.{
  RawGoal, raw_scope_values, resolved, resolved_scope_values, add_unresolved, import_goal,
  unresolved_scopes,
}

has-filter :
    (x : String) (p : String → Bool) (xs : List String) → has x (filter p xs) ≡ (has x xs && p x)
has-filter x p [] = refl
has-filter x p (y ∷ ys) = ground (arith, has-filter x p ys, eq_iff y x)

has-map_of :
    (f : String → String) (x : String) (xs : List String)
    → has x xs ≡ true
    → has (f x) (map f xs) ≡ true
has-map_of f x [] h = absurd (cc h)
has-map_of f x (y ∷ ys) h = elim (Bool-cases (y == x)) [
  | inl e ↦
      let same : y ≡ x = ground (arith, eq_iff y x) in ground (arith, eq_iff (f y) (f x), ap f same)
  | inr e ↦ ground (arith, has-map_of f x ys (ground arith))
]

module _ (alias : List (String × String)) where
  has-add_unresolved :
      (x : String) (set values : List String)
      → has x (add_unresolved alias set values)
        ≡ (has x set || (has x values && is_blank (resolved alias x)))
  unfolding add_unresolved
  has-add_unresolved x set [] = ground arith
  has-add_unresolved x set (v ∷ vs) = ground (
    arith,
    has-add_unresolved x (set_add set v) vs,
    has-add_unresolved x set vs,
    has-set_add x set v,
    eq_iff v x,
  )

  -- Whether a goal of the profile is limited to a value.
  abbrev pub names_scope : String → List RawGoal → Bool
  names_scope x = any (λ g. has x (raw_scope_values g))

  has-unresolved_scopes :
      (x : String) (set : List String) (goals : List RawGoal)
      → has x (unresolved_scopes alias set goals)
        ≡ (has x set || (names_scope x goals && is_blank (resolved alias x)))
  unfolding unresolved_scopes
  has-unresolved_scopes x set [] = ground arith
  has-unresolved_scopes x set (g ∷ gs) = ground (
    arith,
    has-unresolved_scopes x (add_unresolved alias set (raw_scope_values g)) gs,
    has-add_unresolved x set (raw_scope_values g),
  )

  -- For every value to which a goal of the profile is limited: the imported goal is limited to the type
  -- that it stands for, or the notice names it as unresolved.
  pub import_goal_keeps :
      (now : String) (index : ℕ) (goal : RawGoal) (goals : List RawGoal) (value : String)
      → has value (raw_scope_values goal) ≡ true
      → names_scope value goals ≡ true
      → (has (resolved alias value) ((import_goal alias now index goal).resource_type_ids)
          || has value (unresolved_scopes alias [] goals))
        ≡ true
  unfolding import_goal resolved_scope_values
  import_goal_keeps now index goal goals value h k =
      let values = raw_scope_values goal in
      ground (
        arith,
        has-unresolved_scopes value [] goals,
        has-map_of (resolved alias) value values h,
        has-uniq (resolved alias value)
            (filter (λ v. not (is_blank v)) (map (resolved alias) values)),
        has-filter (resolved alias value) (λ v. not (is_blank v)) (map (resolved alias) values),
      )
