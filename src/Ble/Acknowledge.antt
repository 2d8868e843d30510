-- ===== src/Ble/Acknowledge.antt =====
-- When a tracker's motion data is acknowledged.
use cat_litter_box.Common.{
  ℕ, zero, suc, ◌+◌, ◌*◌, ◌/◌, ◌%◌, ◌^◌, ◌≤◌, ◌<◌, true, false, List, [], ◌∷◌, length, take, drop,
  ◌==◌, ◌≡◌, refl, ap, sym, arith,
}
use cat_litter_box.Ble.{
  Motion, Packet, motion_start_response, motion_data, Sent, motion_data_ack, ble_receive_data,
  receive_all,
}

-- The sequence numbers that some messages acknowledge.
abbrev pub acks : List Sent → List ℕ
acks [] = []
acks (motion_data_ack seq ∷ ss) = seq ∷ acks ss
acks (_ ∷ ss) = acks ss

abbrev pub packets : List ℕ → List Packet
packets [] = []
packets (seq ∷ seqs) = motion_data seq ∷ packets seqs

-- After that packet no other is acknowledged.
acks_past :
    (seqs : List ℕ) (m : Motion)
    → m.total_count ≤ m.input_count
    → m.input_count + 9 * length seqs < 2 ^ 32
    → acks (receive_all (packets seqs) m).0 ≡ []
unfolding receive_all ble_receive_data
acks_past [] m e h = refl
acks_past (seq ∷ seqs) m e h =
    rw (differs ((m.input_count + 9) % 2 ^ 32) m.total_count (omega arith))
      (acks_past seqs _ (omega arith) (omega arith))
  where
    differs : (a b : ℕ) → b < a → (a == b) ≡ false
    differs a b h = ground arith

take-nil : (k : ℕ) → take 1 (drop {A = ℕ} k []) ≡ []
take-nil zero = refl
take-nil (suc k) = refl

-- With `k` packets still to come before the one that is acknowledged.
acks_after :
    (k : ℕ) (seqs : List ℕ) (m : Motion)
    → m.total_count ≡ m.input_count + 9 * (k + 1)
    → m.input_count + 9 * length seqs < 2 ^ 32
    → acks (receive_all (packets seqs) m).0 ≡ take 1 (drop k seqs)
unfolding receive_all ble_receive_data
acks_after k [] m e h = sym (take-nil k)
acks_after zero (seq ∷ seqs) m e h =
    rw (same ((m.input_count + 9) % 2 ^ 32) m.total_count (omega arith))
      (ap (λ l. seq ∷ l) (acks_past seqs _ (omega arith) (omega arith)))
  where
    same : (a b : ℕ) → a ≡ b → (a == b) ≡ true
    same a b h = ground arith
acks_after (suc k) (seq ∷ seqs) m e h =
    rw (differs ((m.input_count + 9) % 2 ^ 32) m.total_count (omega arith))
      (acks_after k seqs _ (omega arith) (omega arith))
  where
    differs : (a b : ℕ) → a < b → (a == b) ≡ false
    differs a b h = ground arith

-- After a start response for `n` points, not 0, the packet that is acknowledged is the one after
-- n / 9 others, and no other one is, for as many packets as 32 bits count: a tracker that sends the
-- n / 9 packets of `n` points is never acknowledged if 9 divides `n`.
pub start-acks :
    (n : ℕ) (seqs : List ℕ) (m : Motion)
    → 0 < n
    → n < 2 ^ 16
    → 9 * length seqs < 2 ^ 32
    → acks (receive_all (motion_start_response n ∷ packets seqs) m).0 ≡ take 1 (drop (n / 9) seqs)
unfolding receive_all ble_receive_data
start-acks n seqs m p q h = rw (nonzero n p) (acks_after (n / 9) seqs _ (omega arith) (omega arith))
  where
    nonzero : (a : ℕ) → 0 < a → (a == 0) ≡ false
    nonzero a h = ground arith
