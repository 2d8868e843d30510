-- ===== src/Sensor/Split.antt =====
-- A text cut at each '\n', as `get_line` of main/sensor.c cuts it.
use cat_litter_box.Common.{
  ℕ, suc, ◌≤◌, ◌<◌, false, Option, none, some, List, [], ◌∷◌, ◌++◌, length, drop, ◌==◌,
  if◌then◌else◌, ◌≡◌, refl, arith, Bool-cases, inl, inr,
}
use cat_litter_box.Sensor.Parser.{get_line}

abbrev add_byte : ℕ → List (List ℕ) → List ℕ → List (List ℕ) × List ℕ
add_byte x [] r = ([], x ∷ r)
add_byte x (l ∷ ls) r = ((x ∷ l) ∷ ls, r)

-- The lines of a text, and what follows the last '\n'.
abbrev pub split : List ℕ → List (List ℕ) × List ℕ
split [] = ([], [])
split (x ∷ xs) = let (ls, r) = split xs in if x == b'\n' then ([] ∷ ls, r) else add_byte x ls r

abbrev pub Reads : List ℕ → Option (List ℕ × ℕ) → Type 0
Reads xs none = split xs ≡ ([], xs)
Reads xs (some (l, k)) =
    (split xs ≡ (l ∷ (split (drop k xs)).0, (split (drop k xs)).1)) × (0 < k) × (k ≤ length xs)

Reads-cons :
    (x : ℕ) (xs : List ℕ) (o : Option (List ℕ × ℕ))
    → (x == b'\n') ≡ false
    → Reads xs o
    → Reads (x ∷ xs) (elim o [ none ↦ none | some r ↦ some (x ∷ r.0, suc r.1) ])
Reads-cons x xs none n h = rw (n, h) refl
Reads-cons x xs (some (l, k)) n (h, lo, hi) = (rw (n, h) refl, omega arith, omega arith)

pub get_line-Reads : (xs : List ℕ) → Reads xs (get_line xs (length xs))
unfolding get_line
get_line-Reads [] = refl
get_line-Reads (x ∷ xs) = elim (Bool-cases (x == b'\n')) [
  | inl y ↦ rw y (rw y refl, omega arith, omega arith)
  | inr n ↦ rw n (Reads-cons x xs (get_line xs (length xs)) n (get_line-Reads xs))
]

add-append :
    (x : ℕ) (ls : List (List ℕ)) (r ys : List ℕ)
    → (x == b'\n') ≡ false
    → let (l', r') = split (r ++ ys) in
      let (ls2, r2) = add_byte x ls r in
      add_byte x (ls ++ l') r' ≡ (ls2 ++ (split (r2 ++ ys)).0, (split (r2 ++ ys)).1)
add-append x [] r ys n = rw n refl
add-append x (l ∷ ls) r ys n = refl

pub split-append :
    (xs ys : List ℕ)
    → let (l, r) = split xs in let (l', r') = split (r ++ ys) in split (xs ++ ys) ≡ (l ++ l', r')
split-append [] ys = refl
split-append (x ∷ xs) ys = elim (Bool-cases (x == b'\n')) [
  | inl y ↦ rw (y, split-append xs ys) refl
  | inr n ↦ rw (n, split-append xs ys) (add-append x (split xs).0 (split xs).1 ys n)
]

add-rest :
    (x : ℕ) (ls : List (List ℕ)) (r : List ℕ)
    → (x == b'\n') ≡ false
    → split r ≡ ([], r)
    → let r' = (add_byte x ls r).1 in split r' ≡ ([], r')
add-rest x [] r n h = rw (n, h) refl
add-rest x (l ∷ ls) r n h = h

pub split-rest : (xs : List ℕ) → split (split xs).1 ≡ ([], (split xs).1)
split-rest [] = refl
split-rest (x ∷ xs) = elim (Bool-cases (x == b'\n')) [
  | inl y ↦ rw y (split-rest xs)
  | inr n ↦ rw n (add-rest x (split xs).0 (split xs).1 n (split-rest xs))
]
