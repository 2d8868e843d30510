-- ===== src/Wifi/Scan/Found.antt =====
-- What `wifi_scan_start` of main/wifi/wifi_task.c finds in its three scans.
use mathlib.Core.List.{Memᴰ, append-nil, append_assoc}
use mathlib.Core.List.Memᴰ.{append_left, append_right, append_cases}
use cat_litter_box.Common.{
  ℕ, zero, suc, ◌+◌, ◌-◌, ◌≤◌, ◌<◌, le_or_lt, true, Option, none, some, List, [], ◌∷◌, ◌++◌, length,
  set, length-set, length-append, length-take, take, take-all, replicate, length-replicate, ltb,
  leb, ◌==◌, ◌≡◌, refl, sym, ◌∙◌, subst, arith, Bool-cases, inl, inr, ◌⊎◌, if◌then◌else◌,
}
use cat_litter_box.Wifi.Scan.{
  ApRecord, ScanResult, zero_record, scan_failed, no_memory, scanned, wifi_max_value,
  append_records, collect, scan_loop, wifi_scan_start,
}
use cat_litter_box.Wifi.Scan.Best.{take-set, remove_duplicate-keep_all}
use cat_litter_box.Wifi.Scan.Distinct.{
  Distinct, Covers, Contains, CoversAll, remove_duplicate-strongest,
}

-- The records of the scans, up to one that found no memory.
abbrev pub heard : List ScanResult → List ApRecord
heard [] = []
heard (scan_failed ∷ scans) = heard scans
heard (no_memory ∷ scans) = []
heard (scanned records ∷ scans) = records ++ heard scans

Covers-mono :
    (bs out : List ApRecord) (x : ApRecord)
    → ((y : ApRecord) → Memᴰ y bs → Covers out y)
    → Covers bs x
    → Covers out x
Covers-mono [] out x f c = elim c [ ]
Covers-mono (b ∷ bs) out x f (inl (e, l)) = weaker out (f b (Memᴰ.head refl))
  where
    weaker : (out : List ApRecord) → Covers out b → Covers out x
    weaker [] c = elim c [ ]
    weaker (a ∷ out) (inl (p, q)) = inl (e ∙ p, omega arith)
    weaker (a ∷ out) (inr c) = inr (weaker out c)
Covers-mono (b ∷ bs) out x f (inr c) = Covers-mono bs out x (λ y m. f y (Memᴰ.tail m)) c

Covers-self : (bs : List ApRecord) (x : ApRecord) → Memᴰ x bs → Covers bs x
Covers-self [] x m = elim m [ ]
Covers-self (b ∷ bs) x (Memᴰ.head e) = subst (λ b. Covers (b ∷ bs) x) e (inl (refl, omega arith))
Covers-self (b ∷ bs) x (Memᴰ.tail m) = inr (Covers-self bs x m)

take-nil : (n : ℕ) → take {A = ApRecord} n [] ≡ []
take-nil zero = refl
take-nil (suc n) = refl

Memᴰ-take : (n : ℕ) (xs : List ApRecord) {x : ApRecord} → Memᴰ x (take n xs) → Memᴰ x xs
Memᴰ-take zero xs m = elim m [ ]
Memᴰ-take (suc n) [] m = m
Memᴰ-take (suc n) (y ∷ xs) (Memᴰ.head e) = Memᴰ.head e
Memᴰ-take (suc n) (y ∷ xs) (Memᴰ.tail m) = Memᴰ.tail (Memᴰ-take n xs m)

record Appended (rs temp : List ApRecord) (total : ℕ) (r : List ApRecord × ℕ) : Type 0 where
  front : take r.1 r.0 ≡ take total temp ++ take (30 - total) rs
  size : length r.0 ≡ length temp
  bound : r.1 ≤ 30
  growth : r.1 ≤ total + length rs

append_records-Appended :
    (rs temp : List ApRecord) (total : ℕ)
    → length temp ≡ 30
    → total ≤ 30
    → Appended rs temp total (append_records rs temp total)
unfolding append_records
append_records-Appended [] temp total s b = record {
  front = rw take-nil (sym (append-nil (take total temp)));
  size = refl;
  bound = b;
  growth = omega arith;
}
append_records-Appended (r ∷ rs) temp total s b = elim (Bool-cases (ltb total 30)) [
  | inl y ↦
      let less : total < 30 = ground arith in
      let ih =
        append_records-Appended rs (set temp total r) (suc total) (length-set temp total r ∙ s)
          (omega arith) in
      let e : 30 - total ≡ suc (30 - suc total) = omega arith in
      rw y (record {
        front = rw e (
            ih.front
            ∙ rw (take-set temp total r (omega arith))
                (append_assoc (take total temp) (r ∷ []) (take (30 - suc total) rs)));
        size = ih.size ∙ length-set temp total r;
        bound = ih.bound;
        growth = let g = ih.growth in omega arith;
      })
  | inr n ↦
      let e : 30 - total ≡ 0 = ground arith in
      rw n (record {
        front = rw e (sym (append-nil (take total temp)));
        size = refl;
        bound = b;
        growth = omega arith;
      })
]

-- What scans that hear `new` make of the array's front.
record Scanned (new temp : List ApRecord) (total : ℕ) (r : List ApRecord × ℕ) : Type 0 where
  size : length r.0 ≡ 30
  bound : r.1 ≤ 30
  growth : r.1 ≤ total + length new
  distinct : Distinct (take r.1 r.0)
  origin : (x : ApRecord) → Memᴰ x (take r.1 r.0) → Memᴰ x (take total temp) ⊎ Memᴰ x new
  keeps : (x : ApRecord) → Covers (take total temp) x → Covers (take r.1 r.0) x
  covers : total + length new ≤ 30 → (x : ApRecord) → Memᴰ x new → Covers (take r.1 r.0) x

Scanned-nil :
    (temp : List ApRecord) (total : ℕ)
    → length temp ≡ 30
    → total ≤ 30
    → Distinct (take total temp)
    → Scanned [] temp total (temp, total)
Scanned-nil temp total s b d = record {
  size = s;
  bound = b;
  growth = omega arith;
  distinct = d;
  origin = λ x m. inl m;
  keeps = λ x c. c;
  covers = λ h x m. elim m [ ];
}

collect-Scanned :
    (rs temp : List ApRecord) (total : ℕ)
    → length temp ≡ 30
    → total ≤ 30
    → Distinct (take total temp)
    → Scanned rs temp total (collect rs temp total)
unfolding collect
collect-Scanned [] temp total s b d = Scanned-nil temp total s b d
collect-Scanned (r ∷ rs) temp total s b d =
    let (temp', total') = append_records (r ∷ rs) temp total in
    let app = append_records-Appended (r ∷ rs) temp total s b in
    let (kept, size, less) = remove_duplicate-keep_all temp' total' (rw (app.size ∙ s) app.bound) in
    let (distinct, origin, covers) =
      remove_duplicate-strongest temp' total' (rw (app.size ∙ s) app.bound) in
    let added = take (30 - total) (r ∷ rs) in
    record {
      size = size ∙ app.size ∙ s;
      bound = let c = app.bound in omega arith;
      growth = let g = app.growth in omega arith;
      distinct = distinct;
      origin = λ x m.
          elim (append_cases (take total temp) (subst (λ l. Memᴰ x l) app.front (origin x m))) [
            | inl o ↦ inl o
            | inr n ↦ inr (Memᴰ-take (30 - total) (r ∷ rs) n)
          ];
      keeps = λ x c.
          Covers-mono (take total temp) _ x
            (λ y m. covers y (subst (λ l. Memᴰ y l) (sym app.front) (append_left added m))) c;
      covers = λ h x m. covers x (
          subst (λ l. Memᴰ x l) (sym app.front)
            (append_right (take total temp)
              (subst (λ l. Memᴰ x l) (sym (take-all (30 - total) (r ∷ rs) (omega arith))) m)));
    }

Scanned-append :
    (new new' temp : List ApRecord) (total : ℕ) {r r' : List ApRecord × ℕ}
    → Scanned new temp total r
    → Scanned new' r.0 r.1 r'
    → Scanned (new ++ new') temp total r'
Scanned-append new new' temp total {r} {r'} first rest = record {
  size = rest.size;
  bound = rest.bound;
  growth = let g = first.growth in let h = rest.growth in omega (arith, length-append new new');
  distinct = rest.distinct;
  origin = λ x m. elim (rest.origin x m) [
    | inl o ↦ elim (first.origin x o) [ inl p ↦ inl p | inr n ↦ inr (append_left new' n) ]
    | inr n ↦ inr (append_right new n)
  ];
  keeps = λ x c. rest.keeps x (first.keeps x c);
  covers = λ h x m. elim (append_cases new m) [
    | inl n ↦ rest.keeps x (first.covers (omega (arith, length-append new new')) x n)
    | inr n ↦ rest.covers (let g = first.growth in omega (arith, length-append new new')) x n
  ];
}

-- Once the array is full, what would still come is not waited for.
Scanned-full :
    (new new' temp : List ApRecord) (total : ℕ) {r : List ApRecord × ℕ}
    → Scanned new temp total r
    → 30 ≤ r.1
    → Scanned (new ++ new') temp total r
Scanned-full new new' temp total {r} first full = record {
  size = first.size;
  bound = first.bound;
  growth = let g = first.growth in omega (arith, length-append new new');
  distinct = first.distinct;
  origin = λ x m. elim (first.origin x m) [ inl p ↦ inl p | inr n ↦ inr (append_left new' n) ];
  keeps = first.keeps;
  covers = λ h x m. elim (append_cases new m) [
    | inl n ↦ first.covers (omega (arith, length-append new new')) x n
    | inr n ↦
        absurd (let g = first.growth in nothing new' n (omega (arith, length-append new new')))
  ];
}
  where
    nothing : (xs : List ApRecord) {x : ApRecord} → Memᴰ x xs → length xs ≡ 0 → ⊥
    nothing [] m e = elim m [ ]
    nothing (y ∷ xs) m e = omega arith

scan_loop-Scanned :
    (scans : List ScanResult) (temp : List ApRecord) (total : ℕ)
    → length temp ≡ 30
    → total ≤ 30
    → Distinct (take total temp)
    → Scanned (heard scans) temp total (scan_loop scans temp total)
unfolding scan_loop
scan_loop-Scanned [] temp total s b d = Scanned-nil temp total s b d
scan_loop-Scanned (scan_failed ∷ scans) temp total s b d = scan_loop-Scanned scans temp total s b d
scan_loop-Scanned (no_memory ∷ scans) temp total s b d = Scanned-nil temp total s b d
scan_loop-Scanned (scanned records ∷ scans) temp total s b d =
    let (temp', total') = collect records temp total in
    let first = collect-Scanned records temp total s b d in
    let rest = scan_loop-Scanned scans temp' total' first.size first.bound first.distinct in
    elim (Bool-cases (leb 30 total')) [
      | inl y ↦ rw y (Scanned-full records (heard scans) temp total first (ground arith))
      | inr n ↦ rw n (Scanned-append records (heard scans) temp total first rest)
    ]

-- The records of `ap_list`.
abbrev pub listed : Option (List ApRecord) → List ApRecord
listed none = []
listed (some aps) = aps

listed_lem :
    (temp : List ApRecord) (total : ℕ)
    → listed (if total == 0 then none else some (take total temp)) ≡ take total temp
listed_lem temp zero = refl
listed_lem temp (suc n) = ground arith

-- What `wifi_scan_start` lists are at most 30 access points, each SSID once, and each as one of the
-- three scans gave it, before one without memory. If those scans gave no more than 30 records in
-- all, every record has its SSID in the list with no weaker signal.
pub wifi_scan_start-strongest :
    (first second third : ScanResult)
    → let records = heard (first ∷ second ∷ third ∷ []) in
      let aps = listed (wifi_scan_start true first second third) in
      (length aps ≤ wifi_max_value)
      × Distinct aps
      × Contains records aps
      × ((wifi_max_value < length records) ⊎ CoversAll aps records)
unfolding wifi_scan_start
wifi_scan_start-strongest first second third =
    let scans = first ∷ second ∷ third ∷ [] in
    let temp = replicate wifi_max_value zero_record in
    let r = scan_loop scans temp 0 in
    let found = scan_loop-Scanned scans temp 0 (length-replicate 30 zero_record) (omega arith) tt in
    rw (listed_lem r.0 r.1) (
      (let b = found.bound in omega (arith, length-take r.1 r.0)),
      found.distinct,
      (λ a m. elim (found.origin a m) [ inl o ↦ elim o [ ] | inr n ↦ n ]),
      all_covered (le_or_lt (length (heard scans)) 30) found.covers,
    )
  where
    all_covered : {n : ℕ} {C : Type 0} → (n ≤ 30) ⊎ (30 < n) → (0 + n ≤ 30 → C) → (30 < n) ⊎ C
    all_covered (inl h) f = inr (f (omega arith))
    all_covered (inr h) f = inl h
