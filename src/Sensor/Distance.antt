-- ===== src/Sensor/Distance.antt =====
-- The distance that main/sensor.c reads off its ring buffer.
use mathlib.Core.List.{Memᴰ}
use cat_litter_box.Common.{
  ◌<◌, ◌≡◌, ◌⊎◌, inl, inr, refl, sym, ◌∙◌, ◌&&◌, true, false, List, [], ◌∷◌, arith, if◌then◌else◌,
}
use cat_litter_box.Common.Int.{ℤ, pos, minus_one, ltb_ℤ}
use cat_litter_box.Sensor.{Sensor, is_valid_tof, min_valid, get_tof_distance}

-- No valid value of the list is below `r`.
abbrev pub IsLeast : ℤ → List ℤ → Type 0
IsLeast r [] = Unit
IsLeast r (x ∷ xs) = (is_valid_tof x ≡ true → ltb_ℤ x r ≡ false) × IsLeast r xs

ltb_ℤ-trans : (x m r : ℤ) → ltb_ℤ m r ≡ false → ltb_ℤ x m ≡ false → ltb_ℤ x r ≡ false
ltb_ℤ-trans x m r h k = ground arith

-- The loop's choice between its least value so far and the next one.
abbrev smaller : ℤ → ℤ → ℤ
smaller m x = if is_valid_tof x && ltb_ℤ x m then x else m

smaller_least :
    (m x : ℤ)
    → (ltb_ℤ m (smaller m x) ≡ false) × (is_valid_tof x ≡ true → ltb_ℤ x (smaller m x) ≡ false)
smaller_least m x = ground arith

smaller_one_of : (m x : ℤ) → (smaller m x ≡ m) ⊎ ((smaller m x ≡ x) × (is_valid_tof x ≡ true))
smaller_one_of m x = ground arith

min_valid-IsLeast :
    (m : ℤ) (xs : List ℤ) → (ltb_ℤ m (min_valid m xs) ≡ false) × IsLeast (min_valid m xs) xs
unfolding min_valid
min_valid-IsLeast m [] = (ground arith, tt)
min_valid-IsLeast m (x ∷ xs) =
    let (low, least) = min_valid-IsLeast (smaller m x) xs in
    let (a, b) = smaller_least m x in
    (ltb_ℤ-trans m (smaller m x) _ low a, (λ v. ltb_ℤ-trans x (smaller m x) _ low (b v), least))

min_valid_one_of :
    (m : ℤ) (xs : List ℤ)
    → (min_valid m xs ≡ m) ⊎ ((is_valid_tof (min_valid m xs) ≡ true) × Memᴰ (min_valid m xs) xs)
unfolding min_valid
min_valid_one_of m [] = inl refl
min_valid_one_of m (x ∷ xs) = elim (min_valid_one_of (smaller m x) xs) [
  | inr (v, i) ↦ inr (v, Memᴰ.tail i)
  | inl e ↦ elim (smaller_one_of m x) [
    | inl e' ↦ inl (e ∙ e')
    | inr (e', v) ↦ inr (rw (e ∙ e') v, Memᴰ.head (e ∙ e'))
  ]
]

-- No value of the list is valid.
abbrev pub NoneValid : List ℤ → Type 0
NoneValid [] = Unit
NoneValid (x ∷ xs) = (is_valid_tof x ≡ false) × NoneValid xs

not_below : (x : ℤ) → (is_valid_tof x ≡ true → ltb_ℤ x (pos 9999) ≡ false) → is_valid_tof x ≡ false
not_below x h = ground arith

IsLeast-NoneValid : (xs : List ℤ) → IsLeast (pos 9999) xs → NoneValid xs
IsLeast-NoneValid [] l = tt
IsLeast-NoneValid (x ∷ xs) (h, l) = (not_below x h, IsLeast-NoneValid xs l)

distance_found :
    (s : Sensor)
    → 0 < s.tof_ring_count
    → let r = min_valid (pos 9999) s.tof_ring_buf in
      (is_valid_tof r ≡ true → get_tof_distance s ≡ r)
      × (r ≡ pos 9999 → get_tof_distance s ≡ minus_one)
unfolding get_tof_distance
distance_found s h = (λ v. ground arith, λ e. ground arith)

-- Once a sample has come, `get_tof_distance` returns a value of the ring buffer from 0 to 2000 with no
-- such value below it, or -1 if the buffer holds no value from 0 to 2000.
pub get_tof_distance-IsLeast :
    (s : Sensor)
    → 0 < s.tof_ring_count
    → let d = get_tof_distance s in
      ((is_valid_tof d ≡ true) × Memᴰ d s.tof_ring_buf × IsLeast d s.tof_ring_buf)
      ⊎ ((d ≡ minus_one) × NoneValid s.tof_ring_buf)
get_tof_distance-IsLeast s h =
    let (found, missed) = distance_found s h in
    let least = (min_valid-IsLeast (pos 9999) s.tof_ring_buf).1 in
    elim (min_valid_one_of (pos 9999) s.tof_ring_buf) [
      | inl e ↦ inr (missed e, IsLeast-NoneValid s.tof_ring_buf (rw (sym e) least))
      | inr (v, i) ↦ inl (rw (found v) (v, i, least))
    ]
