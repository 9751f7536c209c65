-- ===== src/Prelude/Texts.antt =====
-- JavaScript strings as lists of code units, with the tests and orders that the code uses.
use Prim.Native.Nat.{ℕ}
use Prim.Native.Char.{code}
use Prim.Native.String.{String}
use mathlib.Core.Path.{◌≡◌, refl}
use mathlib.Core.Logic.{◌≢◌, ◌↔◌}
use mathlib.Core.Bool.{Bool, true, false, ◌&&◌, ◌||◌}
use mathlib.Core.Option.{Option, none, some}
use mathlib.Core.List.{List, [], ◌∷◌, reverse}
use native.Mathlib.Omega.{arith}
use plant_ops.Prelude.Tests.{leb, ◌=?◌, if◌then◌else◌}

abbrev pub Text : Type 0
Text = List ℕ

-- The code units of a literal, for tests and for the constants of the source.
abbrev pub codes : String → Text
codes String.[] = []
codes (String.◌∷◌ c s) = code c ∷ codes s

-- `===` on strings
infix 50 ◌==◌
unfoldable pub ◌==◌ : Text → Text → Bool
[] == [] = true
(a ∷ s) == (b ∷ t) = a =? b && s == t
_ == _ = false

pub eq_iff : (s t : Text) → ((s == t) ≡ true) ↔ (s ≡ t)
unfolding ◌==◌
eq_iff [] [] = ((λ _. refl), λ _. refl)
eq_iff [] (b ∷ t) = ((λ h. cc), λ h. cc)
eq_iff (a ∷ s) [] = ((λ h. cc), λ h. cc)
eq_iff (a ∷ s) (b ∷ t) =
    ((λ h. ground (arith, (eq_iff s t).0)), λ h. ground (arith, (eq_iff s t).1))

pub eq_refl : (s : Text) → (s == s) ≡ true
eq_refl s = (eq_iff s s).1 refl

-- `Array.prototype.includes`, `Set.prototype.has`
unfoldable pub includes : List Text → Text → Bool
unfolding ◌==◌
includes [] k = false
includes (x ∷ xs) k = x == k || includes xs k

-- The white space and line ends that `trim` removes.
unfoldable pub is_space : ℕ → Bool
is_space c =
    (leb 9 c && leb c 13)
    || c =? 32
    || c =? 160
    || c =? 0x1680
    || (leb 0x2000 c && leb c 0x200a)
    || c =? 0x2028
    || c =? 0x2029
    || c =? 0x202f
    || c =? 0x205f
    || c =? 0x3000
    || c =? 0xfeff

unfoldable pub trim_start : Text → Text
unfolding is_space
trim_start [] = []
trim_start (c ∷ s) = let rest = trim_start s in if is_space c then rest else c ∷ s

-- `s.trim()`
unfoldable pub trim : Text → Text
unfolding trim_start
trim s = reverse (trim_start (reverse (trim_start s)))

pub ne_of_eq_false : (s t : Text) → (s == t) ≡ false → s ≢ t
ne_of_eq_false s t h e = let k = (eq_iff s t).1 e in absurd (ground arith)

-- `===` of two texts that may be absent.
abbrev pub same_option : Option Text → Option Text → Bool
same_option none none = true
same_option (some a) (some b) = a == b
same_option _ _ = false

-- `column = $n`, which is not true of a null column.
abbrev pub column_is : Option Text → Text → Bool
column_is none id = false
column_is (some x) id = x == id
