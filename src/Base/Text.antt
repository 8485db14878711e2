-- ===== src/Base/Text.antt =====
-- Byte strings: the `std::string_view` operations that the program calls.
use Prim.Native.Char.{code}
use Prim.Native.Nat.{ℕ, suc, ◌≤◌}
use Prim.Native.String.{String}
use mathlib.Core.Bool.{Bool, true, false, ◌&&◌, ◌||◌}
use mathlib.Core.List.{List, [], ◌∷◌}
use mathlib.Core.Option.{Option, none, some}
use mathlib.Core.Logic.{◌↔◌}
use mathlib.Core.Path.{◌≡◌}
use native.Mathlib.Omega.{arith}
use logrin.Base.Tests.{◌==◌, if◌then◌else◌}
use logrin.Base.Lists.{length, take, drop}

abbrev pub Bytes : Type 0
Bytes = List ℕ

-- The bytes of a text that is ASCII.
abbrev pub codes : String → Bytes
codes String.[] = []
codes (String.◌∷◌ c s) = code c ∷ codes s

-- `lhs == rhs`
unfoldable pub equal : Bytes → Bytes → Bool
equal [] [] = true
equal (x ∷ xs) (y ∷ ys) = x == y && equal xs ys
equal _ _ = false

-- `str.starts_with(prefix)`, the prefix first.
unfoldable pub starts_with : Bytes → Bytes → Bool
starts_with [] s = true
starts_with (x ∷ p) [] = false
starts_with (x ∷ p) (y ∷ s) = x == y && starts_with p s

-- `str.contains(ch)`
unfoldable pub contains : Bytes → ℕ → Bool
contains [] c = false
contains (x ∷ xs) c = x == c || contains xs c

-- `str.rfind(ch)`: the last position of the byte, if it occurs.
unfoldable pub rfind : Bytes → ℕ → Option ℕ
rfind [] c = none
rfind (x ∷ xs) c = elim (rfind xs c) [
  | some i ↦ some (suc i)
  | none ↦ if x == c then some 0 else none
]

-- `str.substr(offset, count)` where the offset lies in the text.
abbrev pub substr : Bytes → ℕ → ℕ → Bytes
substr s offset count = take count (drop offset s)

pub starts_with-length : (p s : Bytes) → starts_with p s ≡ true → length p ≤ length s
unfolding starts_with
starts_with-length [] s h = omega arith
starts_with-length (x ∷ p) [] h = ground arith
starts_with-length (x ∷ p) (y ∷ s) h = ground (arith, starts_with-length p s)

-- `equal` decides equality.
pub equal_iff : (lhs rhs : Bytes) → (equal lhs rhs ≡ true) ↔ (lhs ≡ rhs)
unfolding equal
equal_iff [] _ = ground arith
equal_iff (l ∷ lhs) [] = ground arith
equal_iff (l ∷ lhs) (r ∷ rhs) = ground (arith, equal_iff lhs rhs)
