-- ===== src/Prelude/Int.antt =====
-- Signed integers over the native numbers: canvas coordinates and the counts that a saved graph may
-- hold below zero.
use Prim.Native.Nat.{ℕ, suc, ◌+◌, ◌-◌}
use multi_robot_supervision.Prelude.Tests.{if◌then◌else◌, leb}

-- `negsuc n` is -(n + 1).
pub data ℤ : Type 0 where
  pos : ℕ → ℤ
  negsuc : ℕ → ℤ

-- Math.max(0, z)
abbrev pub pos_part : ℤ → ℕ
pos_part (pos n) = n
pos_part (negsuc n) = 0

abbrev neg_part : ℤ → ℕ
neg_part (pos n) = 0
neg_part (negsuc n) = suc n

infixl 65 ◌+ℤ◌
abbrev pub ◌+ℤ◌ : ℤ → ℤ → ℤ
a +ℤ b =
    let up = pos_part a + pos_part b in
    let down = neg_part a + neg_part b in
    if leb down up then pos (up - down) else negsuc (down - up - 1)
