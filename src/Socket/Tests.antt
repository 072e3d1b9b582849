-- ===== src/Socket/Tests.antt =====
-- Two components listen to one graph, and one of them leaves.
use multi_robot_supervision.Prelude.{true, false, List, [], ◌∷◌, ◌≡◌, has, IsDistinct, arith}
use multi_robot_supervision.Prelude.Maps.{map_get}
use multi_robot_supervision.Socket.Subscribers.{Message, Listeners, on_message}
use multi_robot_supervision.Socket.Routes.{Act, run, is_stale, on_message-listens}
use multi_robot_supervision.Socket.Connection.{
  nothing, connect, on_open, on_close, on_timeout, Step, Reach, IsAlive, Reach-IsAlive,
}

abbrev acts : List Act
acts = Act.leave "tree" "page" ∷ Act.listen "tree" "panel" ∷ Act.listen "tree" "page" ∷ []

abbrev listeners : Listeners
listeners = record { lock_subscribers = run acts; sync_subscribers = run [] }

on_message-listens_example :
    (has "panel" (on_message (Message.behavior_tree_lock "tree") listeners) ≡ true)
    × (has "panel" (on_message (Message.graph_sync "tree") listeners) ≡ false)
    × IsDistinct (on_message (Message.behavior_tree_lock "tree") listeners)
    × IsDistinct (on_message (Message.graph_sync "tree") listeners)
    × (is_stale (map_get "tree" (run acts)) ≡ false)
    × (is_stale (map_get "tree" (run [])) ≡ false)
on_message-listens_example = on_message-listens acts [] "tree" "panel"

lost : Reach (connect nothing) (on_timeout (on_close (on_open (connect nothing))))
unfolding connect on_open on_close
lost =
    Reach.next
      (Reach.next (Reach.next Reach.here (Step.opens (omega arith))) (Step.closes (omega arith)))
      (Step.fires (omega arith))

Reach-IsAlive_example : IsAlive (on_timeout (on_close (on_open (connect nothing))))
Reach-IsAlive_example = Reach-IsAlive lost
