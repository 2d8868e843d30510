-- ===== src/Loadcell.antt =====
-- main/loadcell.c: the cat detection that starts a cleaning by itself. `float` and `double` are a
-- parameter, `Floats`. The mutex and the queue are not part of the repository: whether
-- `xSemaphoreTake` succeeds is an argument. Log output is left out, its flags are kept.
pub mod Machine
pub mod Ring
pub mod Weights
pub mod Tare
use cat_litter_box.Common.{
  ℕ, ◌+◌, ◌-◌, ◌/◌, ◌%◌, Bool, true, false, not, ◌&&◌, ◌||◌, ltb, leb, List, [], ◌∷◌, replicate,
  set, get_or, if◌then◌else◌,
}

-- The `float`s (F) and `double`s (D) that the detection computes with.
pub record Floats : Type 1 where
  pub F : Type 0
  pub D : Type 0
  pub zero_f : F
  pub zero_d : D
  pub add : F → F → F
  pub sub : F → F → F
  pub le : F → F → Bool
  pub lt : F → F → Bool
  pub add_sum : D → F → D
  pub sub_sum : D → F → D
  pub mean : D → ℕ → F
  pub entry_threshold_g : F
  pub exit_threshold_g : F

pub data CatState : Type 0 where
  cat_init cat_idle cat_occupied cat_wait_clean : CatState

abbrev pub cat_ring_buffer_size : ℕ
cat_ring_buffer_size = 200

abbrev pub cat_init_sample_count : ℕ
cat_init_sample_count = 30

abbrev pub cat_clean_delay_sec : ℕ
cat_clean_delay_sec = 180

module _ (floats : Floats) where
  open floats use {
    F, D, zero_f, zero_d, add, sub, le, lt, add_sum, sub_sum, mean, entry_threshold_g,
    exit_threshold_g,
  }

  -- The static variables `g_...`.
  pub record Cat : Type 0 where
    pub cat_state : CatState
    pub ring_buffer : List F
    pub ring_head : ℕ
    pub ring_count : ℕ
    pub ring_sum : D
    pub baseline_weight : F
    pub exit_timestamp_us : ℕ
    pub prev_clean_running : Bool
    pub init_log_printed : Bool
    pub last_logged_min : ℕ
    pub log_idle_baseline : F
    pub log_peak_weight : F
    pub log_exit_weight : F

  unfoldable pub reset_cat_ring_buffer : Cat → Cat
  reset_cat_ring_buffer c = record c {
    ring_buffer = replicate cat_ring_buffer_size zero_f;
    ring_head = 0;
    ring_count = 0;
    ring_sum = zero_d;
    baseline_weight = zero_f;
    cat_state = cat_init;
    init_log_printed = false;
  }

  -- The buffer part of `push_cat_ring_buffer`.
  unfoldable pub store_weight : F → Cat → Cat
  store_weight new_val c =
      if ltb c.ring_count cat_ring_buffer_size
      then record c {
        ring_buffer = set c.ring_buffer c.ring_head new_val;
        ring_sum = add_sum c.ring_sum new_val;
        ring_count = c.ring_count + 1;
        ring_head = (c.ring_head + 1) % cat_ring_buffer_size;
      }
      else record c {
        ring_sum = add_sum (sub_sum c.ring_sum (get_or c.ring_buffer c.ring_head zero_f)) new_val;
        ring_buffer = set c.ring_buffer c.ring_head new_val;
        ring_head = (c.ring_head + 1) % cat_ring_buffer_size;
      }

  -- `g_baseline_weight = push_cat_ring_buffer(current_weight)`
  unfoldable pub track_baseline : F → Cat → Cat
  track_baseline w c =
      let c' = store_weight w c in record c' { baseline_weight = mean c'.ring_sum c'.ring_count }

  -- The cases of the `switch` in `process_cat_detection_fsm`. The second result is that
  -- UI_CLEAN_CMD is sent.
  unfoldable pub in_init : F → Cat → Cat
  in_init current_weight c =
      let c' = record (track_baseline current_weight c) { init_log_printed = true } in
      if leb cat_init_sample_count c'.ring_count then record c' { cat_state = cat_idle } else c'

  unfoldable pub in_idle : F → Cat → Cat
  in_idle current_weight c =
      if le current_weight (sub c.baseline_weight entry_threshold_g)
      then reset_cat_ring_buffer c
      else let c' = track_baseline current_weight c in
        if le (add c'.baseline_weight entry_threshold_g) current_weight
        then record c' {
          cat_state = cat_occupied;
          log_idle_baseline = c'.baseline_weight;
          log_peak_weight = current_weight;
        }
        else c'

  unfoldable pub in_occupied : F → ℕ → Cat → Cat
  in_occupied current_weight now c =
      let c' =
        (if lt c.log_peak_weight current_weight
          then record c { log_peak_weight = current_weight }
          else c) in
      if le current_weight (add c'.baseline_weight exit_threshold_g)
      then record c' {
        cat_state = cat_wait_clean;
        exit_timestamp_us = now;
        last_logged_min = 0;
        log_exit_weight = current_weight;
      }
      else c'

  -- The clock does not go back, so truncated `-` is exact.
  unfoldable pub in_wait_clean : F → ℕ → Cat → Cat × Bool
  in_wait_clean current_weight now c =
      let c' = track_baseline current_weight c in
      if le (add c'.baseline_weight entry_threshold_g) current_weight
      then (record c' { cat_state = cat_occupied }, false)
      else let elapsed_sec = (now - c'.exit_timestamp_us) / 1000000 in
        let elapsed_min = elapsed_sec / 60 in
        let c'' =
          (if ltb c'.last_logged_min elapsed_min && leb elapsed_min 3
            then record c' { last_logged_min = elapsed_min }
            else c') in
        if leb cat_clean_delay_sec elapsed_sec
        then (record c'' { cat_state = cat_idle }, true)
        else (c'', false)

  unfoldable pub detect : CatState → F → ℕ → Cat → Cat × Bool
  detect cat_init w now c = (in_init w c, false)
  detect cat_idle w now c = (in_idle w c, false)
  detect cat_occupied w now c = (in_occupied w now c, false)
  detect cat_wait_clean w now c = in_wait_clean w now c

  -- What the function reads of other files when it is called.
  pub record Sample : Type 0 where
    pub weight : F
    pub clean_running : Bool
    pub clean_pause_flag : Bool
    pub recovery_requested : Bool
    pub now : ℕ

  -- The first lines: the end of a cleaning forgets the buffer.
  unfoldable pub note_clean_running : Bool → Cat → Cat
  note_clean_running clean_running c =
      record (if c.prev_clean_running && not clean_running then reset_cat_ring_buffer c else c) {
        prev_clean_running = clean_running;
      }

  unfoldable pub process_cat_detection_fsm : Sample → Cat → Cat × Bool
  process_cat_detection_fsm x c =
      let c' = note_clean_running x.clean_running c in
      if x.clean_running || x.clean_pause_flag || x.recovery_requested
      then (c', false)
      else detect c'.cat_state x.weight x.now c'

  -- After `loadcell_init`.
  unfoldable pub boot : Cat
  boot = record {
    cat_state = cat_init;
    ring_buffer = replicate cat_ring_buffer_size zero_f;
    ring_head = 0;
    ring_count = 0;
    ring_sum = zero_d;
    baseline_weight = zero_f;
    exit_timestamp_us = 0;
    prev_clean_running = false;
    init_log_printed = false;
    last_logged_min = 0;
    log_idle_baseline = zero_f;
    log_peak_weight = zero_f;
    log_exit_weight = zero_f;
  }

  -- The calls of the detection in their order.
  unfoldable pub run : List Sample → Cat → Cat
  run [] c = c
  run (x ∷ xs) c = run xs (process_cat_detection_fsm x c).0
