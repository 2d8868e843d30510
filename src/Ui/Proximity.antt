-- ===== src/Ui/Proximity.antt =====
-- `proximity_task` of main/ui.c: the cat's visit told from the main load cell, twice a second. The
-- weights are `double`s, a parameter; logs are left out.
pub mod Visit
use cat_litter_box.Common.{ℕ, ◌+◌, Bool, true, false, not, ltb, ◌==◌, List, [], ◌∷◌, if◌then◌else◌}
use cat_litter_box.Motion.{LedCmd, led_idle, led_inuse}
use cat_litter_box.Ui.{Task, clean_task}

-- PROXI_MODE_IDLE and so on.
pub data ProxiMode : Type 0 where
  proxi_idle proxi_use proxi_escape proxi_harden : ProxiMode

-- What the task computes with weights: `w > cat_wg`, `w < 100.0` and `fabs(a - b) < 3.0`.
pub record Weights : Type 1 where
  pub D : Type 0
  pub zero_d : D
  pub is_cat : D → Bool
  pub lt_100 : D → Bool
  pub is_near : D → D → Bool

-- What a round does to other tasks.
pub data Notice : Type 0 where
  led_cmd : LedCmd → Notice
  create_task : Task → Notice

module _ (weights : Weights) where
  open weights use {D, zero_d, is_cat, lt_100, is_near}

  -- The task's variables and `g_is_system_ready`.
  pub record Proximity : Type 0 where
    pub mode : ProxiMode
    pub cat_enter_f : Bool
    pub cat_enter_cnt : ℕ
    pub cat_use_cnt : ℕ
    pub prev_wg : D
    pub is_system_ready : Bool

  -- `check_operating()`, and the main load cell's weight when a round first reads it and when it reads
  -- it again.
  pub record Reading : Type 0 where
    pub operating : Bool
    pub first : D
    pub second : D

  unfoldable pub start : Proximity
  start = record {
    mode = proxi_idle;
    cat_enter_f = false;
    cat_enter_cnt = 0;
    cat_use_cnt = 0;
    prev_wg = zero_d;
    is_system_ready = false;
  }

  -- The baseline of a box at rest, from the twelfth round without a cat on.
  unfoldable pub settle : D → Proximity → Proximity × List Notice
  settle gap p =
      let prev = (if lt_100 p.prev_wg then gap else p.prev_wg) in
      let p' = record p { cat_enter_cnt = 12; prev_wg = gap } in
      if is_near gap prev
      then (if not p.is_system_ready
          then (record p' { is_system_ready = true }, led_cmd led_idle ∷ [])
          else (p', []))
      else (p', [])

  unfoldable pub in_proxi_idle : Reading → Proximity → Proximity × List Notice
  in_proxi_idle x p =
      if is_cat x.first
      then (if not p.cat_enter_f
          then (record p { cat_enter_f = true; cat_enter_cnt = 0 }, [])
          else if ltb 10 (p.cat_enter_cnt + 1)
          then (
            record p { cat_enter_f = false; cat_enter_cnt = 0; cat_use_cnt = 0; mode = proxi_use },
            led_cmd led_inuse ∷ [],
          )
          else (record p { cat_enter_cnt = p.cat_enter_cnt + 1 }, []))
      else if p.cat_enter_f
      then (record p { cat_enter_f = false; cat_enter_cnt = 0 }, [])
      else if ltb 10 (p.cat_enter_cnt + 1)
      then (if p.cat_enter_cnt + 1 == 11
          then (record p { cat_enter_cnt = 11; prev_wg = x.second }, [])
          else settle x.second p)
      else (record p { cat_enter_cnt = p.cat_enter_cnt + 1 }, [])

  unfoldable pub in_proxi_use : Reading → Proximity → Proximity
  in_proxi_use x p =
      if is_cat x.first
      then record p { cat_use_cnt = p.cat_use_cnt + 1; cat_enter_cnt = 0 }
      else if ltb 10 (p.cat_enter_cnt + 1)
      then record p { cat_enter_cnt = p.cat_enter_cnt + 1; mode = proxi_escape }
      else record p { cat_enter_cnt = p.cat_enter_cnt + 1 }

  unfoldable pub in_proxi_harden : Proximity → Proximity × List Notice
  in_proxi_harden p =
      if ltb 20 (p.cat_enter_cnt + 1)
      then (
        record p { cat_enter_cnt = 0; cat_enter_f = false; mode = proxi_idle },
        create_task clean_task ∷ [],
      )
      else (record p { cat_enter_cnt = p.cat_enter_cnt + 1 }, [])

  -- The `switch`.
  unfoldable pub watch : ProxiMode → Reading → Proximity → Proximity × List Notice
  watch proxi_idle x p = in_proxi_idle x p
  watch proxi_use x p = (in_proxi_use x p, [])
  watch proxi_escape x p =
      (record p { cat_enter_cnt = 0; mode = proxi_harden }, led_cmd led_idle ∷ [])
  watch proxi_harden x p = in_proxi_harden p

  -- A round of `proximity_task`.
  unfoldable pub proximity_round : Reading → Proximity → Proximity × List Notice
  proximity_round x p =
      if x.operating
      then (
        record p { cat_enter_f = false; cat_enter_cnt = 0; cat_use_cnt = 0; mode = proxi_idle },
        [],
      )
      else watch p.mode x p

  -- The state after some rounds, newest first.
  unfoldable pub after : List Reading → Proximity
  after [] = start
  after (x ∷ past) = (proximity_round x (after past)).0
