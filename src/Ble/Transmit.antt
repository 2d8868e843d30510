-- ===== src/Ble/Transmit.antt =====
-- main/ble/ble_task.c: `ble_tx_processing_task`, which sends a message to the phone in pieces
-- The queue that it reads is left out: a message is an argument. Log output and delays are left out.
use mathlib.Core.Option
use cat_litter_box.Common.{
  ℕ, zero, suc, ◌+◌, ◌-◌, ◌≤◌, ◌<◌, Bool, true, Option, none, some, List, [], ◌∷◌, ◌++◌, length,
  length-drop, length-take, take, drop, drop-drop, take-append-drop, ltb, if◌then◌else◌, ◌≡◌, refl,
  sym, arith, Bool-cases, inl, inr,
}

-- The less of the two
unfoldable pub send_len : ℕ → ℕ → ℕ
send_len max_payload left = if ltb max_payload left then max_payload else left

-- The pieces that `ble_server_send_notify` gets, from `offset` on, with `g_ble_max_payload`. `none`
-- means that the fuel ran out. The message's length and the offset are `uint16_t`s, and the offset
-- does not pass the length.
unfoldable pub tx_loop : ℕ → ℕ → List ℕ → ℕ → Option (List (List ℕ))
tx_loop zero max_payload msg offset = if ltb offset (length msg) then none else some []
tx_loop (suc fuel) max_payload msg offset =
    let n = send_len max_payload (length msg - offset) in
    let rest = tx_loop fuel max_payload msg (offset + n) in
    if ltb offset (length msg) then Option.map (◌∷◌ (take n (drop offset msg))) rest else some []

-- A message, if the phone is connected.
unfoldable pub transmit : ℕ → Bool → ℕ → List ℕ → Option (List (List ℕ))
transmit fuel connected max_payload msg =
    if connected then tx_loop fuel max_payload msg 0 else some []

abbrev pub join : List (List ℕ) → List ℕ
join [] = []
join (c ∷ cs) = c ++ join cs

-- Every piece has a byte, and no more than so many.
abbrev pub Fits : ℕ → List (List ℕ) → Type 0
Fits n [] = Unit
Fits n (c ∷ cs) = (0 < length c) × (length c ≤ n) × Fits n cs

drop-all : (n : ℕ) (xs : List ℕ) → length xs ≤ n → drop n xs ≡ []
drop-all zero [] h = refl
drop-all zero (x ∷ xs) h = absurd (omega arith)
drop-all (suc n) [] h = refl
drop-all (suc n) (x ∷ xs) h = drop-all n xs (omega arith)

send_len-bounds :
    (m left : ℕ)
    → 0 < m
    → 0 < left
    → (0 < send_len m left) × (send_len m left ≤ m) × (send_len m left ≤ left)
unfolding send_len
send_len-bounds m left h l = ground arith

tx_loop-sends :
    (fuel max_payload : ℕ) (msg : List ℕ) (offset : ℕ)
    → 0 < max_payload
    → length msg ≤ offset + fuel
    → (cs : List (List ℕ)) × (tx_loop fuel max_payload msg offset ≡ some cs)
      × (join cs ≡ drop offset msg)
      × Fits max_payload cs
unfolding tx_loop
tx_loop-sends zero m msg offset h b = elim (Bool-cases (ltb offset (length msg))) [
  | inl y ↦ absurd (ground arith)
  | inr n ↦ rw n ([], refl, sym (drop-all offset msg (ground arith)), tt)
]
tx_loop-sends (suc fuel) m msg offset h b = elim (Bool-cases (ltb offset (length msg))) [
  | inl y ↦
      let more : offset < length msg = ground arith in
      let n = send_len m (length msg - offset) in
      let (some_sent, few, fits) = send_len-bounds m (length msg - offset) h (omega arith) in
      let (cs, e, j, f) = tx_loop-sends fuel m msg (offset + n) h (omega arith) in
      rw (y, e)
        (
          take n (drop offset msg) ∷ cs,
          refl,
          rw j (rw (drop-drop offset n msg) at (take-append-drop n (drop offset msg))),
          (
            omega (arith, length-take n (drop offset msg), length-drop offset msg),
            omega (arith, length-take n (drop offset msg)),
            f,
          ),
        )
  | inr n ↦ rw n ([], refl, sym (drop-all offset msg (ground arith)), tt)
]

-- A message for a phone that is connected is sent whole and in order, in pieces of one byte or more
-- and at most `g_ble_max_payload`, if that is not 0: as many rounds as it has bytes are enough.
pub transmit-sends :
    (max_payload : ℕ) (msg : List ℕ)
    → 0 < max_payload
    → (pieces : List (List ℕ)) × (transmit (length msg) true max_payload msg ≡ some pieces)
      × (join pieces ≡ msg)
      × Fits max_payload pieces
unfolding transmit
transmit-sends max_payload msg h = tx_loop-sends (length msg) max_payload msg 0 h (omega arith)

send_len-zero : (left : ℕ) → send_len 0 left ≡ 0
unfolding send_len
send_len-zero left = ground arith

tx_loop-endless : (fuel c : ℕ) (msg : List ℕ) → tx_loop fuel 0 (c ∷ msg) 0 ≡ none
unfolding tx_loop
tx_loop-endless zero c msg = ground arith
tx_loop-endless (suc fuel) c msg =
    let more : ltb 0 (suc (length msg)) ≡ true = ground arith in
    rw (more, send_len-zero, tx_loop-endless fuel c msg) refl

-- With 0 as `g_ble_max_payload`, which the phone may ask for, no number of rounds is enough.
transmit-endless : (fuel c : ℕ) (msg : List ℕ) → transmit fuel true 0 (c ∷ msg) ≡ none
unfolding transmit
transmit-endless fuel c msg = tx_loop-endless fuel c msg
