-- ===== src/Ui/Proximity/Visit.antt =====
-- What `proximity_task` of main/ui.c waits for before it starts a cleaning.
use cat_litter_box.Common.{ℕ, suc, ◌+◌, ◌≤◌, ◌≡◌, true, List, [], ◌∷◌, arith, if◌then◌else◌}
use cat_litter_box.Ui.{clean_task}
use cat_litter_box.Ui.Proximity.{
  proxi_idle, proxi_use, proxi_escape, proxi_harden, Weights, create_task, Proximity, Reading,
  start, settle, in_proxi_idle, in_proxi_use, in_proxi_harden, watch, proximity_round, after,
}

module _ (weights : Weights) where
  -- How many of the newest rounds in a row found nothing operating.
  unfoldable pub free : List (Reading weights) → ℕ
  free [] = 0
  free (x ∷ past) = let rest = free past in if x.operating then 0 else suc rest

  -- The state counts rounds that nothing interrupted: 12 with a cat to enter `proxi_use`, 11 without to
  -- leave it, one to escape, and those of the hardening.
  record IsCounting (p : Proximity weights) (n : ℕ) : Type 0 where
    entering : p.mode ≡ proxi_idle → p.cat_enter_f ≡ true → suc p.cat_enter_cnt ≤ n
    leaving : p.mode ≡ proxi_use → 12 + p.cat_enter_cnt ≤ n
    escaping : p.mode ≡ proxi_escape → 23 ≤ n
    hardening : p.mode ≡ proxi_harden → (24 + p.cat_enter_cnt ≤ n) × (p.cat_enter_cnt ≤ 20)

  round-IsCounting :
      (x : Reading weights) (p : Proximity weights) (n : ℕ)
      → IsCounting p n
      → IsCounting (proximity_round weights x p).0 (if x.operating then 0 else suc n)
  unfolding proximity_round watch in_proxi_idle in_proxi_use in_proxi_harden settle
  round-IsCounting x p n v = ground arith

  after-IsCounting : (past : List (Reading weights)) → IsCounting (after weights past) (free past)
  unfolding after free start
  after-IsCounting [] = ground arith
  after-IsCounting (x ∷ past) = round-IsCounting x _ _ (after-IsCounting past)

  -- `proximity_task` creates a cleaning task only in a round that ends at least 45 rounds in a row, half a
  -- second each, at which nothing else was operating.
  pub creates-free :
      (x : Reading weights) (past : List (Reading weights))
      → (proximity_round weights x (after weights past)).1 ≡ create_task clean_task ∷ []
      → 45 ≤ free (x ∷ past)
  unfolding proximity_round watch in_proxi_idle in_proxi_use in_proxi_harden settle free
  creates-free x past h = ground (arith, after-IsCounting past)
