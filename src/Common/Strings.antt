-- ===== src/Common/Strings.antt =====
-- Strings of C, as lists of bytes.
use Prim.Native.Nat.{ℕ}
use Prim.Native.Char.{code}
use Prim.Native.String.{String}
use mathlib.Core.Bool.{Bool, true, false, ◌&&◌}
use mathlib.Core.List.{List, [], ◌∷◌}
use mathlib.Core.Path.{◌≡◌, refl, ap}
use native.Mathlib.Omega.{arith}
use mathlib.Core.Logic.{inl, inr}
use cat_litter_box.Common.Tests.{◌==◌, if◌then◌else◌, Bool-cases}

-- The string at the start of an array: the bytes before the first zero.
abbrev pub c_string : List ℕ → List ℕ
c_string [] = []
c_string (x ∷ xs) = if x == 0 then [] else x ∷ c_string xs

-- `strcmp(a, b) == 0`
abbrev pub eq_bytes : List ℕ → List ℕ → Bool
eq_bytes [] [] = true
eq_bytes [] (y ∷ ys) = false
eq_bytes (x ∷ xs) [] = false
eq_bytes (x ∷ xs) (y ∷ ys) = (x == y) && eq_bytes xs ys

-- `strncmp(s, prefix, strlen(prefix)) == 0`
abbrev pub has_prefix : List ℕ → List ℕ → Bool
has_prefix [] s = true
has_prefix (c ∷ cs) [] = false
has_prefix (c ∷ cs) (x ∷ s) = (x == c) && has_prefix cs s

abbrev pub NoZero : List ℕ → Type 0
NoZero [] = Unit
NoZero (x ∷ xs) = ((x == 0) ≡ false) × NoZero xs

pub c_string_lem : (xs : List ℕ) → NoZero xs → c_string xs ≡ xs
c_string_lem [] z = refl
c_string_lem (x ∷ xs) (z, zs) = rw z (ap (◌∷◌ x) (c_string_lem xs zs))

==_comm : (x y : ℕ) → (x == y) ≡ (y == x)
==_comm x y = ground arith

pub eq_bytes_comm : (a b : List ℕ) → eq_bytes a b ≡ eq_bytes b a
eq_bytes_comm [] [] = refl
eq_bytes_comm [] (y ∷ b) = refl
eq_bytes_comm (x ∷ a) [] = refl
eq_bytes_comm (x ∷ a) (y ∷ b) = rw (==_comm x y, eq_bytes_comm a b) refl

pub eq_bytes→eq : (a b : List ℕ) → eq_bytes a b ≡ true → a ≡ b
eq_bytes→eq [] [] h = refl
eq_bytes→eq [] (y ∷ b) h = absurd (cc)
eq_bytes→eq (x ∷ a) [] h = absurd (cc)
eq_bytes→eq (x ∷ a) (y ∷ b) h = elim (Bool-cases (x == y)) [
  | inl e ↦ let tails = eq_bytes→eq a b (rw e at h) in ground arith
  | inr n ↦ absurd (let e : false ≡ true = rw n at h in cc)
]

pub eq_bytes_refl : (a : List ℕ) → eq_bytes a a ≡ true
eq_bytes_refl [] = refl
eq_bytes_refl (x ∷ a) = ground (arith, eq_bytes_refl a)

-- The bytes of an ASCII text. `String` has its own `[]` and `∷`.
abbrev pub codes : String → List ℕ
codes String.[] = []
codes (String.◌∷◌ c s) = code c ∷ codes s
