-- ===== src/User/Tests.antt =====
-- A user whose name is not of ASCII characters, and a store of version 0 that holds such a session.
use Prim.Native.String.{String, [], ◌∷◌}
use Prim.Native.Char.{code}
use multi_robot_supervision.Prelude.{ℕ, some, true, ◌≡◌, refl, arith, if◌then◌else◌, ltb}
use multi_robot_supervision.User.{
  UserState, is_ascii_only, set_username, migrate, clear_user, Reached,
}
use multi_robot_supervision.User.Laws.{is_header, Reached-session}

abbrev encoder : String → String
encoder [] = []
encoder (c ∷ s) = let rest = encoder s in if ltb (code c) 128 then c ∷ rest else rest

encoded : (s : String) → is_ascii_only (encoder s) ≡ true
unfolding is_ascii_only
encoded [] = refl
encoded (c ∷ s) = ground (arith, encoded s)

abbrev clock : ℕ → String
clock t = "lx3k"

timed : (t : ℕ) → is_ascii_only (clock t) ≡ true
unfolding is_ascii_only
timed t = refl

abbrev old : UserState
old = record { username = some "김"; session_id = some "session_김_1" }

abbrev loaded : UserState
loaded = migrate encoder (clock 1) (clock 2) old 0

Reached-session_example :
    is_header ((set_username encoder (clock 3) (clock 4) "Kim" (clear_user loaded)).session_id)
    ≡ true
Reached-session_example =
    Reached-session encoder clock clock encoded timed timed
      (Reached.named (Reached.cleared (Reached.loaded 1 2 old)) 3 4 "Kim")
