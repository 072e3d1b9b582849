-- ===== src/Sequence/Statuses.antt =====
-- How the statuses of a task combine.
use multi_robot_supervision.Prelude.{◌≡◌, max, arith}
use multi_robot_supervision.Sequence.{Status, rank, merge_sequence_status}

-- Merging is the join of the order by rank: it is idempotent, commutative and associative, and the
-- result has the higher of the two ranks.
pub merge_sequence_status-join :
    (a b c : Status)
    → (merge_sequence_status a a ≡ a)
      × (merge_sequence_status a b ≡ merge_sequence_status b a)
      × (merge_sequence_status (merge_sequence_status a b) c
          ≡ merge_sequence_status a (merge_sequence_status b c))
      × (rank (merge_sequence_status a b) ≡ max (rank a) (rank b))
unfolding merge_sequence_status rank
merge_sequence_status-join a b c = ground arith
