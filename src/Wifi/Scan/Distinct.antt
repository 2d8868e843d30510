-- ===== src/Wifi/Scan/Distinct.antt =====
-- What main/wifi/wifi_task.c keeps of the access points: each SSID once, with its strongest signal.
use mathlib.Core.List.{Memᴰ}
use cat_litter_box.Common.{
  ℕ, ◌≤◌, Bool, true, false, List, [], ◌∷◌, length, take, ◌≡◌, ◌≢◌, refl, sym, ◌∙◌, subst, arith,
  Bool-cases, inl, inr, if◌then◌else◌, ◌⊎◌,
}
use cat_litter_box.Common.Int.{◌≤ℤ◌, ltb_ℤ}
use cat_litter_box.Common.Strings.{eq_bytes, eq_bytes→eq, eq_bytes_refl}
use cat_litter_box.Wifi.Scan.{ApRecord, same_ssid, remove_duplicate_best_rssi}
use cat_litter_box.Wifi.Scan.Best.{keep, keep_all, remove_duplicate-keep_all}

-- No record of the list has the SSID.
abbrev pub IsNew : List ℕ → List ApRecord → Type 0
IsNew s [] = Unit
IsNew s (b ∷ bs) = (s ≢ b.ssid) × IsNew s bs

abbrev pub Distinct : List ApRecord → Type 0
Distinct [] = Unit
Distinct (b ∷ bs) = IsNew b.ssid bs × Distinct bs

-- A record of the list has the SSID, and no weaker signal.
abbrev pub Covers : List ApRecord → ApRecord → Type 0
Covers [] a = ⊥
Covers (b ∷ bs) a = ((a.ssid ≡ b.ssid) × (a.rssi ≤ℤ b.rssi)) ⊎ Covers bs a

-- Every record of the second list is one of the first, and every one is covered by the first.
abbrev pub Contains : List ApRecord → List ApRecord → Type 0
Contains out xs = (a : ApRecord) → Memᴰ a xs → Memᴰ a out

abbrev pub CoversAll : List ApRecord → List ApRecord → Type 0
CoversAll out xs = (a : ApRecord) → Memᴰ a xs → Covers out a

other : (a b : ApRecord) → same_ssid a b ≡ false → a.ssid ≢ b.ssid
other a b d e = let same : eq_bytes a.ssid b.ssid ≡ true = rw e (eq_bytes_refl b.ssid) in cc

keep-Memᴰ : (a x : ApRecord) (bs : List ApRecord) → Memᴰ x (keep a bs) → (x ≡ a) ⊎ Memᴰ x bs
keep-Memᴰ a x [] (Memᴰ.head e) = inl e
keep-Memᴰ a x [] (Memᴰ.tail m) = elim m [ ]
keep-Memᴰ a x (b ∷ bs) m = elim (Bool-cases (same_ssid a b)) [
  | inl y ↦ replaced (ltb_ℤ b.rssi a.rssi) (rw y at m)
  | inr d ↦ kept (keep-Memᴰ a x bs) (rw d at m)
]
  where
    replaced : (s : Bool) → Memᴰ x (if s then a ∷ bs else b ∷ bs) → (x ≡ a) ⊎ Memᴰ x (b ∷ bs)
    replaced true (Memᴰ.head e) = inl e
    replaced true (Memᴰ.tail t) = inr (Memᴰ.tail t)
    replaced false t = inr t

    kept :
        (Memᴰ x (keep a bs) → (x ≡ a) ⊎ Memᴰ x bs)
        → Memᴰ x (b ∷ keep a bs)
        → (x ≡ a) ⊎ Memᴰ x (b ∷ bs)
    kept ih (Memᴰ.head e) = inr (Memᴰ.head e)
    kept ih (Memᴰ.tail t) = elim (ih t) [ inl e ↦ inl e | inr o ↦ inr (Memᴰ.tail o) ]

keep-IsNew :
    (s : List ℕ) (a : ApRecord) (bs : List ApRecord) → s ≢ a.ssid → IsNew s bs → IsNew s (keep a bs)
keep-IsNew s a [] n f = (n, tt)
keep-IsNew s a (b ∷ bs) n (e, f) = elim (Bool-cases (same_ssid a b)) [
  | inl y ↦ rw y (elim (ltb_ℤ b.rssi a.rssi) as (λ x. IsNew s (if x then a ∷ bs else b ∷ bs)) [
    | true ↦ (n, f)
    | false ↦ (e, f)
  ])
  | inr d ↦ rw d (e, keep-IsNew s a bs n f)
]

keep-Distinct : (a : ApRecord) (bs : List ApRecord) → Distinct bs → Distinct (keep a bs)
keep-Distinct a [] d = (tt, tt)
keep-Distinct a (b ∷ bs) (f, d) = elim (Bool-cases (same_ssid a b)) [
  | inl y ↦ rw y (elim (ltb_ℤ b.rssi a.rssi) as (λ x. Distinct (if x then a ∷ bs else b ∷ bs)) [
    | true ↦ (subst (λ s. IsNew s bs) (sym (eq_bytes→eq a.ssid b.ssid y)) f, d)
    | false ↦ (f, d)
  ])
  | inr n ↦ rw n (keep-IsNew b.ssid a bs (λ e. other a b n (sym e)) f, keep-Distinct a bs d)
]

keep-Covers_self : (a : ApRecord) (bs : List ApRecord) → Covers (keep a bs) a
keep-Covers_self a [] = inl (refl, omega arith)
keep-Covers_self a (b ∷ bs) = elim (Bool-cases (same_ssid a b)) [
  | inl y ↦ rw y (elim (Bool-cases (ltb_ℤ b.rssi a.rssi)) [
    | inl l ↦ rw l (inl (refl, omega arith))
    | inr l ↦ rw l (inl (eq_bytes→eq a.ssid b.ssid y, ground arith))
  ])
  | inr n ↦ rw n (inr (keep-Covers_self a bs))
]

keep-Covers : (a x : ApRecord) (bs : List ApRecord) → Covers bs x → Covers (keep a bs) x
keep-Covers a x [] c = elim c [ ]
keep-Covers a x (b ∷ bs) c = elim (Bool-cases (same_ssid a b)) [
  | inl y ↦ rw y (replaced (eq_bytes→eq a.ssid b.ssid y) c)
  | inr n ↦ rw n (kept (keep-Covers a x bs) c)
]
  where
    replaced :
        a.ssid ≡ b.ssid
        → Covers (b ∷ bs) x
        → Covers (if ltb_ℤ b.rssi a.rssi then a ∷ bs else b ∷ bs) x
    replaced e (inr t) =
        elim (ltb_ℤ b.rssi a.rssi) as (λ s. Covers (if s then a ∷ bs else b ∷ bs) x) [
          | true ↦ inr t
          | false ↦ inr t
        ]
    replaced e (inl (p, q)) = elim (Bool-cases (ltb_ℤ b.rssi a.rssi)) [
      | inl l ↦ rw l (inl (p ∙ sym e, ground arith))
      | inr l ↦ rw l (inl (p, q))
    ]

    kept : (Covers bs x → Covers (keep a bs) x) → Covers (b ∷ bs) x → Covers (b ∷ keep a bs) x
    kept ih (inl p) = inl p
    kept ih (inr t) = inr (ih t)

keep_all-Distinct : (xs bs : List ApRecord) → Distinct bs → Distinct (keep_all xs bs)
keep_all-Distinct [] bs d = d
keep_all-Distinct (a ∷ xs) bs d = keep_all-Distinct xs (keep a bs) (keep-Distinct a bs d)

keep_all-Memᴰ :
    (x : ApRecord) (xs bs : List ApRecord) → Memᴰ x (keep_all xs bs) → Memᴰ x xs ⊎ Memᴰ x bs
keep_all-Memᴰ x [] bs m = inr m
keep_all-Memᴰ x (a ∷ xs) bs m = elim (keep_all-Memᴰ x xs (keep a bs) m) [
  | inl t ↦ inl (Memᴰ.tail t)
  | inr t ↦ elim (keep-Memᴰ a x bs t) [ inl e ↦ inl (Memᴰ.head e) | inr o ↦ inr o ]
]

keep_all-Covers : (x : ApRecord) (xs bs : List ApRecord) → Covers bs x → Covers (keep_all xs bs) x
keep_all-Covers x [] bs c = c
keep_all-Covers x (a ∷ xs) bs c = keep_all-Covers x xs (keep a bs) (keep-Covers a x bs c)

keep_all-Covers_self :
    (x : ApRecord) (xs bs : List ApRecord) → Memᴰ x xs → Covers (keep_all xs bs) x
keep_all-Covers_self x [] bs m = elim m [ ]
keep_all-Covers_self x (a ∷ xs) bs (Memᴰ.head e) =
    keep_all-Covers x xs (keep a bs)
      (subst (λ x. Covers (keep a bs) x) (sym e) (keep-Covers_self a bs))
keep_all-Covers_self x (a ∷ xs) bs (Memᴰ.tail m) = keep_all-Covers_self x xs (keep a bs) m

-- Of the `count` records at the front, `remove_duplicate_best_rssi` leaves each SSID once, by one
-- of its records, and none of its records has a stronger signal.
pub remove_duplicate-strongest :
    (list : List ApRecord) (count : ℕ)
    → count ≤ length list
    → let (list', new_count) = remove_duplicate_best_rssi list count in
      let out = take new_count list' in
      Distinct out × Contains (take count list) out × CoversAll out (take count list)
remove_duplicate-strongest list count h =
    let (kept, size, less) = remove_duplicate-keep_all list count h in
    rw kept (
      keep_all-Distinct (take count list) [] tt,
      (λ a m. elim (keep_all-Memᴰ a (take count list) [] m) [ inl t ↦ t | inr t ↦ elim t [ ] ]),
      λ a m. keep_all-Covers_self a (take count list) [] m,
    )
