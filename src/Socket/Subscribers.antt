-- ===== src/Socket/Subscribers.antt =====
-- Subscribing to the messages about a graph, the function that undoes it, and passing a message on
-- (`subscribeLockEvents`, `subscribeSyncEvents` and `onmessage`).
use multi_robot_supervision.Prelude.{
  String, none, some, List, [], not, ◌==◌, if◌then◌else◌, filter, set_add, is_empty,
}
use multi_robot_supervision.Prelude.Maps.{map_get, map_set}

abbrev pub Subscribers : Type 0
Subscribers = List (String × List String)

-- map.delete(k)
abbrev pub map_delete : String → Subscribers → Subscribers
map_delete k = filter (λ entry. not (entry.0 == k))

abbrev pub callbacks : String → Subscribers → List String
callbacks graph m = elim (map_get graph m) [ none ↦ [] | some set ↦ set ]

-- if (!map.has(graphId)) map.set(graphId, new Set())
unfoldable pub ensure : String → Subscribers → Subscribers
ensure graph m = elim (map_get graph m) [ none ↦ map_set graph [] m | some set ↦ m ]

unfoldable pub subscribe : String → String → Subscribers → Subscribers
unfolding ensure
subscribe graph callback m =
    let ready = ensure graph m in map_set graph (set_add (callbacks graph ready) callback) ready

unfoldable pub unsubscribe : String → String → Subscribers → Subscribers
unsubscribe graph callback m = elim (map_get graph m) [
  | none ↦ m
  | some set ↦
      let rest = filter (λ c. not (c == callback)) set in
      if is_empty rest then map_delete graph m else map_set graph rest m
]

-- The kinds of message that are passed on, with the graph that they name.
pub data Message : Type 0 where
  behavior_tree_lock graph_sync : String → Message
  other : Message

-- Both maps of the provider.
pub record Listeners : Type 0 where
  pub lock_subscribers : Subscribers
  pub sync_subscribers : Subscribers

-- The callbacks that a message is passed to, in order.
unfoldable pub on_message : Message → Listeners → List String
on_message (Message.behavior_tree_lock graph) listeners =
    callbacks graph (listeners.lock_subscribers)
on_message (Message.graph_sync graph) listeners = callbacks graph (listeners.sync_subscribers)
on_message Message.other listeners = []
