-- ===== src/Wifi/Scan/Best.antt =====
-- The removal of duplicates in main/wifi/wifi_task.c, against a reference on lists.
use mathlib.Core.Option
use cat_litter_box.Common.{
  ℕ, zero, suc, ◌+◌, ◌≤◌, ◌<◌, Bool, true, false, Option, none, some, List, [], ◌∷◌, ◌++◌, length,
  get_elem?, set, take, drop, length-set, ◌==◌, ==_iff, if◌then◌else◌, ◌≡◌, refl, ap, sym, ◌∙◌,
  arith, subst, Bool-cases, inl, inr,
}
use cat_litter_box.Common.Int.{ltb_ℤ}
use cat_litter_box.Wifi.Scan.{
  ApRecord, same_ssid, find_same, strengthen, put_record, dedup_loop, remove_duplicate_best_rssi,
}

-- The list with a record added: to the end, or in the place of a weaker one of the same SSID.
abbrev pub keep : ApRecord → List ApRecord → List ApRecord
keep a [] = a ∷ []
keep a (b ∷ bs) =
    if same_ssid a b then (if ltb_ℤ b.rssi a.rssi then a ∷ bs else b ∷ bs) else b ∷ keep a bs

abbrev pub keep_all : List ApRecord → List ApRecord → List ApRecord
keep_all [] bs = bs
keep_all (a ∷ as') bs = keep_all as' (keep a bs)

map-none : (o : Option ℕ) → Option.map suc o ≡ none → o ≡ none
map-none none h = refl
map-none (some k) h = absurd (cc)

map-some : (o : Option ℕ) {j : ℕ} → Option.map suc o ≡ some j → (k : ℕ) × (o ≡ some k) × (suc k ≡ j)
map-some none h = absurd (cc)
map-some (some k) h = (k, refl, cc)

find_same-none :
    (a : ApRecord) (l : List ApRecord) (n : ℕ)
    → find_same a l n ≡ none
    → keep a (take n l) ≡ take n l ++ a ∷ []
unfolding find_same
find_same-none a [] zero h = refl
find_same-none a [] (suc n) h = refl
find_same-none a (b ∷ l) zero h = refl
find_same-none a (b ∷ l) (suc n) h = elim (Bool-cases (same_ssid a b)) [
  | inl y ↦ absurd (let e : some 0 ≡ none = rw y at h in cc)
  | inr d ↦ rw d (ap (◌∷◌ b) (find_same-none a l n (map-none _ (rw d at h))))
]

find_same-some :
    (a : ApRecord) (l : List ApRecord) (n : ℕ) {j : ℕ}
    → find_same a l n ≡ some j
    → (j < n) × (take n (strengthen a l j) ≡ keep a (take n l))
unfolding find_same strengthen
find_same-some a [] n h = absurd (cc)
find_same-some a (b ∷ l) zero h = absurd (cc)
find_same-some a (b ∷ l) (suc n) {j} h = elim (Bool-cases (same_ssid a b)) [
  | inl y ↦
      subst (λ j. (j < suc n) × (take (suc n) (strengthen a (b ∷ l) j) ≡ keep a (b ∷ take n l)))
        {x = 0} (let e : some 0 ≡ some j = rw y at h in cc)
        (omega arith, rw y (here (ltb_ℤ b.rssi a.rssi)))
  | inr d ↦
      let (k, found, e) = map-some (find_same a l n) (rw d at h) in
      let (less, kept) = find_same-some a l n found in
      subst (λ j. (j < suc n) × (take (suc n) (strengthen a (b ∷ l) j) ≡ keep a (b ∷ take n l))) e
        (omega arith, rw d (ap (◌∷◌ b) kept))
]
  where
    here :
        (x : Bool)
        → take (suc n) (if x then a ∷ l else b ∷ l) ≡ (if x then a ∷ take n l else b ∷ take n l)
    here true = refl
    here false = refl

length-strengthen :
    (a : ApRecord) (l : List ApRecord) (j : ℕ) → length (strengthen a l j) ≡ length l
unfolding strengthen
length-strengthen a [] j = refl
length-strengthen a (b ∷ l) zero =
    elim (ltb_ℤ b.rssi a.rssi) as (λ x. length (if x then a ∷ l else b ∷ l) ≡ suc (length l)) [
      | true ↦ refl
      | false ↦ refl
    ]
length-strengthen a (b ∷ l) (suc j) = ap suc (length-strengthen a l j)

drop-strengthen :
    (a : ApRecord) (l : List ApRecord) (j i : ℕ)
    → j ≤ i
    → drop (suc i) (strengthen a l j) ≡ drop (suc i) l
unfolding strengthen
drop-strengthen a [] j i h = refl
drop-strengthen a (b ∷ l) zero i h =
    elim (ltb_ℤ b.rssi a.rssi) as (λ x. drop (suc i) (if x then a ∷ l else b ∷ l) ≡ drop i l) [
      | true ↦ refl
      | false ↦ refl
    ]
drop-strengthen a (b ∷ l) (suc j) zero h = absurd (omega arith)
drop-strengthen a (b ∷ l) (suc j) (suc i) h = drop-strengthen a l j i (omega arith)

drop-set :
    (l : List ApRecord) (n i : ℕ) (a : ApRecord) → n ≤ i → drop (suc i) (set l n a) ≡ drop (suc i) l
drop-set [] n i a h = refl
drop-set (b ∷ l) zero i a h = refl
drop-set (b ∷ l) (suc n) zero a h = absurd (omega arith)
drop-set (b ∷ l) (suc n) (suc i) a h = drop-set l n i a (omega arith)

pub take-set :
    (l : List ApRecord) (n : ℕ) (a : ApRecord)
    → n < length l
    → take (suc n) (set l n a) ≡ take n l ++ a ∷ []
take-set [] n a h = absurd (omega arith)
take-set (b ∷ l) zero a h = refl
take-set (b ∷ l) (suc n) a h = ap (◌∷◌ b) (take-set l n a (omega arith))

take-next :
    (l : List ApRecord) (i : ℕ) {a : ApRecord}
    → get_elem? l i ≡ some a
    → take (suc i) l ≡ take i l ++ a ∷ []
take-next [] i h = absurd (cc)
take-next (b ∷ l) zero h = ap (λ x. x ∷ []) (cc)
take-next (b ∷ l) (suc i) h = ap (◌∷◌ b) (take-next l i h)

drop-next :
    (l : List ApRecord) (i : ℕ) {a : ApRecord}
    → get_elem? l i ≡ some a
    → drop i l ≡ a ∷ drop (suc i) l
drop-next [] i h = absurd (cc)
drop-next (b ∷ l) zero h = ap (λ x. x ∷ l) (cc)
drop-next (b ∷ l) (suc i) h = drop-next l i h

get_elem?-some :
    (l : List ApRecord) (i : ℕ) → i < length l → (a : ApRecord) × (get_elem? l i ≡ some a)
get_elem?-some [] i h = absurd (omega arith)
get_elem?-some (b ∷ l) zero h = (b, refl)
get_elem?-some (b ∷ l) (suc i) h = get_elem?-some l i (omega arith)

-- A round's effect on the array and the count.
record Placed (a : ApRecord) (i : ℕ) (l : List ApRecord) (n : ℕ) (r : List ApRecord × ℕ)
    : Type 0 where
  kept : take r.1 r.0 ≡ keep a (take n l)
  rest : drop (suc i) r.0 ≡ drop (suc i) l
  size : length r.0 ≡ length l
  count : r.1 ≤ suc i

put_record-Placed :
    (a : ApRecord) (i : ℕ) (l : List ApRecord) (n : ℕ) (o : Option ℕ)
    → find_same a l n ≡ o
    → get_elem? l i ≡ some a
    → n ≤ i
    → i < length l
    → Placed a i l n (put_record a o i l n)
put_record-Placed a i l n (some j) f g h k =
    let (less, kept) = find_same-some a l n f in
    record {
      kept = kept;
      rest = drop-strengthen a l j i (omega arith);
      size = length-strengthen a l j;
      count = omega arith;
    }
put_record-Placed a i l n none f g h k = elim (Bool-cases (i == n)) [
  | inl y ↦ rw y (record {
    kept =
        take-next l n (subst (λ i. get_elem? l i ≡ some a) ((==_iff i n).0 y) g)
        ∙ sym (find_same-none a l n f);
    rest = refl;
    size = refl;
    count = omega arith;
  })
  | inr d ↦ rw d (record {
    kept = take-set l n a (omega arith) ∙ sym (find_same-none a l n f);
    rest = drop-set l n i a h;
    size = length-set l n a;
    count = omega arith;
  })
]

-- The loop from `i` on keeps the records there one after the other.
record Kept (k i : ℕ) (l : List ApRecord) (n : ℕ) (r : List ApRecord × ℕ) : Type 0 where
  kept : take r.1 r.0 ≡ keep_all (take k (drop i l)) (take n l)
  size : length r.0 ≡ length l
  count : r.1 ≤ i + k

Kept-next :
    (k i : ℕ) (l : List ApRecord) (n : ℕ) {a : ApRecord} {r out : List ApRecord × ℕ}
    → get_elem? l i ≡ some a
    → Placed a i l n r
    → Kept k (suc i) r.0 r.1 out
    → Kept (suc k) i l n out
Kept-next k i l n g placed after = record {
  kept = rw (drop-next l i g) (rw (placed.rest, placed.kept) at after.kept);
  size = after.size ∙ placed.size;
  count = let c = after.count in omega arith;
}

dedup_loop-Kept :
    (k i : ℕ) (l : List ApRecord) (n : ℕ)
    → n ≤ i
    → i + k ≤ length l
    → Kept k i l n (dedup_loop k i l n)
unfolding dedup_loop
dedup_loop-Kept zero i l n h b = record { kept = refl; size = refl; count = omega arith }
dedup_loop-Kept (suc k) i l n h b =
    let (a, g) = get_elem?-some l i (omega arith) in
    let r = put_record a (find_same a l n) i l n in
    let placed : Placed a i l n r =
      put_record-Placed a i l n (find_same a l n) refl g h (omega arith) in
    let after = dedup_loop-Kept k (suc i) r.0 r.1 placed.count (rw placed.size (omega arith)) in
    rw g (Kept-next k i l n g placed after)

-- What the function leaves: the records kept one after the other.
pub remove_duplicate-keep_all :
    (l : List ApRecord) (count : ℕ)
    → count ≤ length l
    → let r = remove_duplicate_best_rssi l count in
      (take r.1 r.0 ≡ keep_all (take count l) []) × (length r.0 ≡ length l) × (r.1 ≤ count)
unfolding remove_duplicate_best_rssi
remove_duplicate-keep_all l count h =
    let all = dedup_loop-Kept count 0 l 0 (omega arith) (omega arith) in
    (all.kept, all.size, let c = all.count in omega arith)
