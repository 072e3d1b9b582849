-- ===== src/Socket/Routes.antt =====
-- The maps of subscribers implement a set of pairs of graphs and callbacks.
use multi_robot_supervision.Prelude.{
  String, Option, none, some, Bool, true, false, List, [], ◌∷◌, not, ◌==◌, ◌&&◌, ◌||◌, ◌≡◌, refl,
  sym, subst, arith, eq_iff, if◌then◌else◌, filter, set_add, is_empty, has, has-set_add,
  Option-cases, inl, inr, IsDistinct, if_split, if_keeps, append-IsDistinct,
}
use multi_robot_supervision.Prelude.Maps.{map_get, map_set, map_get-map_set}
use multi_robot_supervision.Prelude.Keeps.{filter-IsDistinct}
use multi_robot_supervision.Socket.Subscribers.{
  Subscribers, map_delete, callbacks, ensure, subscribe, unsubscribe, Message, Listeners,
  on_message,
}

has-filter-not :
    (c d : String) (xs : List String)
    → has d (filter (λ x. not (x == c)) xs) ≡ (has d xs && not (c == d))
has-filter-not c d [] = refl
has-filter-not c d (x ∷ xs) =
    ground (arith, has-filter-not c d xs, eq_iff x c, eq_iff x d, eq_iff c d)

callbacks-map_set :
    (g h : String) (set : List String) (m : Subscribers)
    → callbacks h (map_set g set m) ≡ (if g == h then set else callbacks h m)
callbacks-map_set g h set m = ground (arith, map_get-map_set g h set m)

callbacks-map_delete :
    (g h : String) (m : Subscribers)
    → callbacks h (map_delete g m) ≡ (if g == h then [] else callbacks h m)
unfolding map_get
callbacks-map_delete g h [] = ground arith
callbacks-map_delete g h ((k, set) ∷ m) =
    ground (arith, callbacks-map_delete g h m, eq_iff k g, eq_iff k h, eq_iff g h)

callbacks-ensure : (g h : String) (m : Subscribers) → callbacks h (ensure g m) ≡ callbacks h m
unfolding ensure
callbacks-ensure g h m = elim (Option-cases (map_get g m)) [
  | inl e ↦ ground (arith, callbacks-map_set g h [] m, eq_iff g h)
  | inr (set, e) ↦ ground arith
]

pub callbacks-subscribe :
    (g c h : String) (m : Subscribers)
    → callbacks h (subscribe g c m) ≡ (if g == h then set_add (callbacks g m) c else callbacks h m)
unfolding subscribe
callbacks-subscribe g c h m = ground (
  arith,
  callbacks-map_set g h (set_add (callbacks g (ensure g m)) c) (ensure g m),
  callbacks-ensure g g m,
  callbacks-ensure g h m,
)

empty-lem : {A : Type 0} (xs : List A) → is_empty xs ≡ true → xs ≡ []
empty-lem [] h = refl
empty-lem (x ∷ xs) h = absurd (cc h)

pub callbacks-unsubscribe :
    (g c h : String) (m : Subscribers)
    → callbacks h (unsubscribe g c m)
      ≡ (if g == h then filter (λ x. not (x == c)) (callbacks g m) else callbacks h m)
unfolding unsubscribe
callbacks-unsubscribe g c h m = elim (Option-cases (map_get g m)) [
  | inl e ↦ ground (arith, eq_iff g h)
  | inr (set, e) ↦
      let rest = filter (λ x. not (x == c)) set in
      ground (arith, callbacks-map_set g h rest m, callbacks-map_delete g h m, empty-lem rest)
]

-- What a component does: it subscribes a callback to a graph, or undoes that.
pub data Act : Type 0 where
  listen leave : String → String → Act

abbrev pub act : Act → Subscribers → Subscribers
act (Act.listen g c) m = subscribe g c m
act (Act.leave g c) m = unsubscribe g c m

-- The last act comes first.
abbrev pub run : List Act → Subscribers
run [] = []
run (a ∷ acts) = act a (run acts)

-- The specification: a callback listens to a graph if the last act on both has been to listen.
abbrev pub listens : List Act → String → String → Bool
listens [] h d = false
listens (Act.listen g c ∷ acts) h d = ((g == h) && (c == d)) || listens acts h d
listens (Act.leave g c ∷ acts) h d = not ((g == h) && (c == d)) && listens acts h d

-- Whatever the acts, in whatever order: a message about a graph is passed to a callback exactly if the
-- callback listens to the graph by the specification.
pub run-listens :
    (acts : List Act) (h d : String) → has d (callbacks h (run acts)) ≡ listens acts h d
unfolding map_get
run-listens [] h d = refl
run-listens (Act.listen g c ∷ acts) h d = ground (
  arith,
  run-listens acts h d,
  run-listens acts g d,
  callbacks-subscribe g c h (run acts),
  has-set_add d (callbacks g (run acts)) c,
  eq_iff g h,
)
run-listens (Act.leave g c ∷ acts) h d = ground (
  arith,
  run-listens acts h d,
  callbacks-unsubscribe g c h (run acts),
  has-filter-not c d (callbacks g (run acts)),
  eq_iff g h,
)

set_add-IsDistinct : (xs : List String) (x : String) → IsDistinct xs → IsDistinct (set_add xs x)
set_add-IsDistinct xs x d =
    if_split IsDistinct (has x xs) (λ h. d) (λ h. append-IsDistinct xs x d h)

run-IsDistinct : (acts : List Act) (h : String) → IsDistinct (callbacks h (run acts))
unfolding map_get
run-IsDistinct [] h = tt
run-IsDistinct (Act.listen g c ∷ acts) h =
    subst IsDistinct (sym (callbacks-subscribe g c h (run acts))) (
      if_keeps IsDistinct (g == h)
        (set_add-IsDistinct (callbacks g (run acts)) c (run-IsDistinct acts g))
        (run-IsDistinct acts h))
run-IsDistinct (Act.leave g c ∷ acts) h =
    subst IsDistinct (sym (callbacks-unsubscribe g c h (run acts))) (
      if_keeps IsDistinct (g == h)
        (filter-IsDistinct (λ x. not (x == c)) (callbacks g (run acts)) (run-IsDistinct acts g))
        (run-IsDistinct acts h))

-- A graph that is kept without a callback.
abbrev pub is_stale : Option (List String) → Bool
is_stale none = false
is_stale (some set) = is_empty set

stale_free : (set : List String) (c : String) → is_empty (set_add set c) ≡ false
stale_free [] c = ground arith
stale_free (x ∷ xs) c = ground arith

map_get-map_delete :
    (g h : String) (m : Subscribers)
    → map_get h (map_delete g m) ≡ (if g == h then none else map_get h m)
unfolding map_get
map_get-map_delete g h [] = ground arith
map_get-map_delete g h ((k, set) ∷ m) =
    ground (arith, map_get-map_delete g h m, eq_iff k g, eq_iff k h, eq_iff g h)

subscribe_fresh :
    (g c h : String) (m : Subscribers)
    → is_stale (map_get h m) ≡ false
    → is_stale (map_get h (subscribe g c m)) ≡ false
unfolding subscribe ensure
subscribe_fresh g c h m fresh = elim (Option-cases (map_get g m)) [
  | inl e ↦ ground (
    arith,
    map_get-map_set g h (set_add (callbacks g (map_set g [] m)) c) (map_set g [] m),
    map_get-map_set g h [] m,
    stale_free (callbacks g (map_set g [] m)) c,
  )
  | inr (set, e) ↦
      ground
        (arith, map_get-map_set g h (set_add (callbacks g m) c) m, stale_free (callbacks g m) c)
]

unsubscribe_fresh :
    (g c h : String) (m : Subscribers)
    → is_stale (map_get h m) ≡ false
    → is_stale (map_get h (unsubscribe g c m)) ≡ false
unfolding unsubscribe
unsubscribe_fresh g c h m fresh = elim (Option-cases (map_get g m)) [
  | inl e ↦ ground arith
  | inr (set, e) ↦
      let rest = filter (λ x. not (x == c)) set in
      ground (arith, map_get-map_set g h rest m, map_get-map_delete g h m)
]

-- However components come and go, no graph is kept without a callback.
pub run_fresh : (acts : List Act) (h : String) → is_stale (map_get h (run acts)) ≡ false
unfolding map_get
run_fresh [] h = refl
run_fresh (Act.listen g c ∷ acts) h = subscribe_fresh g c h (run acts) (run_fresh acts h)
run_fresh (Act.leave g c ∷ acts) h = unsubscribe_fresh g c h (run acts) (run_fresh acts h)

-- However components have subscribed to messages and left, in whatever order: a message of either kind
-- about a graph is passed to a callback exactly if the callback listens to this kind and graph by the
-- specification, and to each callback once; and no graph is kept without a callback.
pub on_message-listens :
    (locks syncs : List Act) (graph callback : String)
    → let listeners : Listeners = record {
      lock_subscribers = run locks;
      sync_subscribers = run syncs;
    } in
      let lock_heard = on_message (Message.behavior_tree_lock graph) listeners in
      let sync_heard = on_message (Message.graph_sync graph) listeners in
      (has callback lock_heard ≡ listens locks graph callback)
      × (has callback sync_heard ≡ listens syncs graph callback)
      × IsDistinct lock_heard
      × IsDistinct sync_heard
      × (is_stale (map_get graph (run locks)) ≡ false)
      × (is_stale (map_get graph (run syncs)) ≡ false)
unfolding on_message
on_message-listens locks syncs graph callback = (
  run-listens locks graph callback,
  run-listens syncs graph callback,
  run-IsDistinct locks graph,
  run-IsDistinct syncs graph,
  run_fresh locks graph,
  run_fresh syncs graph,
)
