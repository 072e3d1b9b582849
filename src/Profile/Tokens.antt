-- ===== src/Profile/Tokens.antt =====
-- The two parts of a token, by recursion on its text.
use Prim.Native.Char.{code}
use Prim.Native.String.{String, [], ◌∷◌}
use multi_robot_supervision.Prelude.{if◌then◌else◌, eqb}

-- The part before the first colon, and the rest after it.
unfoldable pub before_colon : String → String
before_colon [] = []
before_colon (c ∷ s) = let rest = before_colon s in if eqb (code c) 58 then [] else c ∷ rest

unfoldable pub after_colon : String → String
after_colon [] = []
after_colon (c ∷ s) = let rest = after_colon s in if eqb (code c) 58 then s else rest
