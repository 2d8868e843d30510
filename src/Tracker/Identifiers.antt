-- ===== src/Tracker/Identifiers.antt =====
-- The identifiers in the slots of main/ble/ble_tracker_id.c.
use cat_litter_box.Common.{
  ℕ, zero, suc, ◌≤◌, false, Option, none, some, List, [], ◌∷◌, map, length, take, set, ◌≡◌, refl,
  ap, ◌∙◌, arith, Bool-cases, inl, inr,
}
use cat_litter_box.Common.Strings.{eq_bytes, eq_bytes_comm}
use cat_litter_box.Tracker.{Device, find_slot, refresh, update, known, free}

abbrev pub id_of : Option Device → Option (List ℕ)
id_of none = none
id_of (some d) = some d.device_id

-- No slot has the identifier.
abbrev pub Fresh : List ℕ → List (Option (List ℕ)) → Type 0
Fresh id [] = Unit
Fresh id (none ∷ ids) = Fresh id ids
Fresh id (some a ∷ ids) = (eq_bytes a id ≡ false) × Fresh id ids

abbrev pub Distinct : List (Option (List ℕ)) → Type 0
Distinct [] = Unit
Distinct (none ∷ ids) = Distinct ids
Distinct (some a ∷ ids) = Fresh a ids × Distinct ids

Fresh-set :
    (a id : List ℕ) (ids : List (Option (List ℕ))) (i : ℕ)
    → eq_bytes id a ≡ false
    → Fresh a ids
    → Fresh a (set ids i (some id))
Fresh-set a id [] i n f = f
Fresh-set a id (none ∷ ids) zero n f = (n, f)
Fresh-set a id (some b ∷ ids) zero n (e, f) = (n, f)
Fresh-set a id (none ∷ ids) (suc i) n f = Fresh-set a id ids i n f
Fresh-set a id (some b ∷ ids) (suc i) n (e, f) = (e, Fresh-set a id ids i n f)

pub Distinct-set :
    (id : List ℕ) (ids : List (Option (List ℕ))) (i : ℕ)
    → Fresh id ids
    → Distinct ids
    → Distinct (set ids i (some id))
Distinct-set id [] i f d = d
Distinct-set id (none ∷ ids) zero f d = (f, d)
Distinct-set id (some b ∷ ids) zero (e, f) (g, d) = (f, d)
Distinct-set id (none ∷ ids) (suc i) f d = Distinct-set id ids i f d
Distinct-set id (some b ∷ ids) (suc i) (e, f) (g, d) =
    (Fresh-set b id ids i (eq_bytes_comm id b ∙ e) g, Distinct-set id ids i f d)

-- A search that ends at a free slot has met no slot with the identifier.
pub find_slot-Fresh :
    (id : List ℕ) (ds : List (Option Device)) (i : ℕ) (target : Option ℕ) {j : ℕ}
    → find_slot id ds i target ≡ free j
    → Fresh id (map id_of ds)
unfolding find_slot
find_slot-Fresh id [] i target h = tt
find_slot-Fresh id (none ∷ ds) i none h = find_slot-Fresh id ds (suc i) (some i) h
find_slot-Fresh id (none ∷ ds) i (some k) h = find_slot-Fresh id ds (suc i) (some k) h
find_slot-Fresh id (some d ∷ ds) i target {j} h = elim (Bool-cases (eq_bytes d.device_id id)) [
  | inl y ↦ absurd (other i j (rw y at h))
  | inr n ↦ (n, find_slot-Fresh id ds (suc i) target (rw n at h))
]
  where
    other : (a b : ℕ) → known a ≡ free b → ⊥
    other a b h = ground arith

pub map-set :
    (ds : List (Option Device)) (i : ℕ) (o : Option Device)
    → map id_of (set ds i o) ≡ set (map id_of ds) i (id_of o)
map-set [] i o = refl
map-set (d ∷ ds) zero o = refl
map-set (d ∷ ds) (suc i) o = ap (◌∷◌ (id_of d)) (map-set ds i o)

pub map-keeps :
    (f : Option Device → Option Device)
    → ((o : Option Device) → id_of (f o) ≡ id_of o)
    → (ds : List (Option Device)) → map id_of (map f ds) ≡ map id_of ds
map-keeps f k [] = refl
map-keeps f k (d ∷ ds) = rw (k d, map-keeps f k ds) refl

pub update-keeps :
    (i : ℕ) (ds : List (Option Device)) → map id_of (update i refresh ds) ≡ map id_of ds
unfolding update refresh
update-keeps i [] = refl
update-keeps zero (none ∷ ds) = refl
update-keeps zero (some d ∷ ds) = refl
update-keeps (suc i) (d ∷ ds) = ap (◌∷◌ (id_of d)) (update-keeps i ds)

pub take-all : (n : ℕ) (xs : List ℕ) → length xs ≤ n → take n xs ≡ xs
take-all zero [] h = refl
take-all zero (x ∷ xs) h = absurd (omega arith)
take-all (suc n) [] h = refl
take-all (suc n) (x ∷ xs) h = ap (◌∷◌ x) (take-all n xs (omega arith))
