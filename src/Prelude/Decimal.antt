-- ===== src/Prelude/Decimal.antt =====
-- Decimal numerals, as `String(n)` prints a natural number and `Number(text)` reads one.
use Prim.Native.Nat.{ℕ, zero, suc, ◌+◌, ◌*◌, ◌/◌, ◌%◌, ◌-◌, ◌<◌}
use Prim.Native.Char.{Char, code}
use Prim.Native.String.{String, [], ◌∷◌}
use mathlib.Core.Path.{◌≡◌, refl}
use mathlib.Core.Bool.{Bool, true, false, ◌&&◌}
use native.Mathlib.Omega.{arith}
use multi_robot_supervision.Prelude.Tests.{if◌then◌else◌, leb, ltb, if_keeps}
use multi_robot_supervision.Prelude.Text.{is_blank}

digit : ℕ → Char
digit zero = "0"
digit (suc zero) = "1"
digit (suc (suc zero)) = "2"
digit (suc (suc (suc zero))) = "3"
digit (suc (suc (suc (suc zero)))) = "4"
digit (suc (suc (suc (suc (suc zero))))) = "5"
digit (suc (suc (suc (suc (suc (suc zero)))))) = "6"
digit (suc (suc (suc (suc (suc (suc (suc zero))))))) = "7"
digit (suc (suc (suc (suc (suc (suc (suc (suc zero)))))))) = "8"
digit (suc (suc (suc (suc (suc (suc (suc (suc (suc n))))))))) = "9"

-- The digits of `n` before `rest`; a fuel above `n` is enough.
show_from : ℕ → ℕ → String → String
show_from zero n rest = rest
show_from (suc fuel) n rest =
    let last = digit (n % 10) ∷ rest in
    let more = show_from fuel (n / 10) last in if ltb n 10 then last else more

-- String(n)
unfoldable pub show : ℕ → String
unfolding show_from digit
show n = show_from (suc n) n []

-- /\d/
unfoldable pub is_digit : Char → Bool
is_digit c = leb 48 (code c) && leb (code c) 57

-- /^\d*$/
unfoldable pub all_digits : String → Bool
unfolding is_digit
all_digits [] = true
all_digits (c ∷ s) = is_digit c && all_digits s

read_from : ℕ → String → ℕ
read_from acc [] = acc
read_from acc (c ∷ s) = read_from (acc * 10 + (code c - 48)) s

-- Number(s), at a text of digits
unfoldable pub read : String → ℕ
unfolding read_from
read s = read_from 0 s

code-digit : (n : ℕ) → n < 10 → code (digit n) ≡ 48 + n
unfolding digit
code-digit zero h = refl
code-digit (suc zero) h = refl
code-digit (suc (suc zero)) h = refl
code-digit (suc (suc (suc zero))) h = refl
code-digit (suc (suc (suc (suc zero)))) h = refl
code-digit (suc (suc (suc (suc (suc zero))))) h = refl
code-digit (suc (suc (suc (suc (suc (suc zero)))))) h = refl
code-digit (suc (suc (suc (suc (suc (suc (suc zero))))))) h = refl
code-digit (suc (suc (suc (suc (suc (suc (suc (suc zero)))))))) h = refl
code-digit (suc (suc (suc (suc (suc (suc (suc (suc (suc zero))))))))) h = refl
code-digit (suc (suc (suc (suc (suc (suc (suc (suc (suc (suc n)))))))))) h = absurd (omega arith)

show_from-read :
    (fuel n : ℕ) (rest : String) → n < fuel → read_from 0 (show_from fuel n rest) ≡ read_from n rest
unfolding show_from read_from
show_from-read zero n rest h = elim h [ ]
show_from-read (suc fuel) n rest h =
    ground (arith, code-digit (n % 10), show_from-read fuel (n / 10) (digit (n % 10) ∷ rest))

-- Reading a printed number gives it back.
pub read-show : (n : ℕ) → read (show n) ≡ n
unfolding read show
read-show n = show_from-read (suc n) n [] (omega arith)

show_from-digits :
    (fuel n : ℕ) (rest : String)
    → all_digits rest ≡ true
    → all_digits (show_from fuel n rest) ≡ true
unfolding show_from all_digits
show_from-digits zero n rest h = h
show_from-digits (suc fuel) n rest h =
    ground (arith, code-digit (n % 10), show_from-digits fuel (n / 10) (digit (n % 10) ∷ rest))

pub all_digits-show : (n : ℕ) → all_digits (show n) ≡ true
unfolding show all_digits
all_digits-show n = show_from-digits (suc n) n [] refl

is_blank-show_from :
    (fuel n : ℕ) (c : Char) (rest : String) → is_blank (show_from fuel n (c ∷ rest)) ≡ false
unfolding show_from
is_blank-show_from zero n c rest = refl
is_blank-show_from (suc fuel) n c rest =
    if_keeps (λ s. is_blank s ≡ false) (ltb n 10) refl
      (is_blank-show_from fuel (n / 10) (digit (n % 10)) (c ∷ rest))

-- A printed number is not empty.
pub is_blank-show : (n : ℕ) → is_blank (show n) ≡ false
unfolding show show_from
is_blank-show n =
    if_keeps (λ s. is_blank s ≡ false) (ltb n 10) refl
      (is_blank-show_from n (n / 10) (digit (n % 10)) [])
