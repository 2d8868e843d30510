-- ===== src/Ui/Exclusion.antt =====
-- One task of main/ui.c at a time.
use cat_litter_box.Common.{
  ℕ, ◌+◌, ◌≤◌, ◌≡◌, ◌⊎◌, refl, sym, subst, Bool, true, false, List, [], ◌∷◌, ◌++◌, length, arith,
  if◌then◌else◌,
}
use cat_litter_box.Ui.{
  Ui, UiCmd, clean_cmd, manage_finish_cmd, Task, clean_task, manage_finish_task, tare_task,
  manage_start_task, pairing_task, factory_task, task_of, boot, check_run_flag, check_task_runnable,
  check_operating, create, on_command, start_task, end_task,
}

abbrev pub is_finish : UiCmd → Bool
is_finish manage_finish_cmd = true
is_finish _ = false

-- The user interface with the tasks that run: what the scheduler has started and what has not come
-- to its end. The flags are the program's own record of that.
pub record Scheduled : Type 0 where
  pub ui : Ui
  pub started : List Task

abbrev pub power_up : Scheduled
power_up = record { ui = boot; started = [] }

-- What runs after the end of `t`: nothing after that of `ui_factory_task`, which restarts the system.
abbrev pub left : Task → List Task → List Task
left factory_task rest = []
left t rest = rest

-- What can happen next, if the scheduler starts a created task before another task is created, as
-- `ui_task` lets it by its delay of 10 ms after each message and `proximity_task` by one of 500 ms.
pub data PromptStep : Scheduled → Scheduled → Type 0 where
  command :
      (s : Scheduled) (c : UiCmd)
      → s.ui.created ≡ []
      → PromptStep s (record s { ui = on_command c s.ui })
  start :
      (s : Scheduled) (t : Task) (rest : List Task)
      → s.ui.created ≡ t ∷ rest
      → PromptStep s
          (record { ui = start_task t (record s.ui { created = rest }); started = t ∷ s.started })
  harden :
      (s : Scheduled) (diag : Bool)
      → s.ui.created ≡ []
      → check_operating diag s.ui ≡ false
      → PromptStep s (record s { ui = create clean_task s.ui })
  finish :
      (s : Scheduled) (t : Task) (before rest : List Task)
      → s.started ≡ before ++ (t ∷ rest)
      → PromptStep s (record { ui = end_task t s.ui; started = left t (before ++ rest) })

pub data Reaches (s : Scheduled) : Scheduled → Type 0 where
  here : Reaches s s
  next : {u v : Scheduled} → Reaches s u → PromptStep u v → Reaches s v

-- The flag of a task.
abbrev flag : Task → Ui → Bool
flag clean_task u = u.clean_task_run
flag manage_finish_task u = u.manage_finish_task_run
flag tare_task u = u.tare_task_run
flag manage_start_task u = u.manage_start_task_run
flag pairing_task u = u.pairing_task_run
flag factory_task u = u.factory_task_run

-- At most one task runs or is created, and the one that runs has its flag up.
abbrev Tracks : List Task → List Task → Ui → Type 0
Tracks [] [] u = Unit
Tracks [] (t ∷ []) u = Unit
Tracks (t ∷ []) [] u = flag t u ≡ true
Tracks _ _ u = ⊥

record IsExclusive (s : Scheduled) : Type 0 where
  tracks : Tracks s.started s.ui.created s.ui

-- While a task runs, its flag lets no command create another.
busy :
    (t : Task) (c : UiCmd) (u : Ui)
    → flag t u ≡ true
    → u.created ≡ []
    → (on_command c u).created ≡ []
unfolding on_command check_task_runnable check_run_flag create
busy t c u h e = ground arith

kept_flag : (t : Task) (c : UiCmd) (u : Ui) → flag t u ≡ true → flag t (on_command c u) ≡ true
unfolding on_command check_task_runnable check_run_flag create
kept_flag t c u h = ground arith

-- An idle user interface creates one task at most.
asked : (c : UiCmd) (u : Ui) → u.created ≡ [] → Tracks [] (on_command c u).created (on_command c u)
unfolding on_command check_task_runnable check_run_flag create
asked c u e = ground arith

command_lem :
    (ts : List Task) (c : UiCmd) (u : Ui)
    → u.created ≡ []
    → Tracks ts u.created u
    → Tracks ts (on_command c u).created (on_command c u)
command_lem [] c u e h = asked c u e
command_lem (t ∷ []) c u e h =
    let f : flag t u ≡ true = subst (λ cs. Tracks (t ∷ []) cs u) e h in
    subst (λ cs. Tracks (t ∷ []) cs (on_command c u)) (sym (busy t c u f e)) (kept_flag t c u f)
command_lem (t ∷ r ∷ ts) c u e h = absurd h

start_lem :
    (ts : List Task) (t : Task) (rest : List Task) (u : Ui)
    → u.created ≡ t ∷ rest
    → Tracks ts u.created u
    → Tracks
        (t ∷ ts)
        (start_task t (record u { created = rest })).created
        (start_task t (record u { created = rest }))
unfolding start_task
start_lem [] clean_task [] u e h = refl
start_lem [] manage_finish_task [] u e h = refl
start_lem [] tare_task [] u e h = refl
start_lem [] manage_start_task [] u e h = refl
start_lem [] pairing_task [] u e h = refl
start_lem [] factory_task [] u e h = refl
start_lem [] t (r ∷ rest) u e h = absurd (rw e at h)
start_lem (s ∷ []) t rest u e h = absurd (rw e at h)
start_lem (s ∷ r ∷ ts) t rest u e h = absurd h

harden_lem :
    (ts : List Task) (diag : Bool) (u : Ui)
    → u.created ≡ []
    → check_operating diag u ≡ false
    → Tracks ts u.created u
    → Tracks ts (create clean_task u).created (create clean_task u)
unfolding check_operating create
harden_lem [] diag u e c h = rw e tt
harden_lem (t ∷ []) diag u e c h =
    let f : flag t u ≡ true = subst (λ cs. Tracks (t ∷ []) cs u) e h in ground arith
harden_lem (t ∷ r ∷ ts) diag u e c h = absurd h

-- A task that ends was the only one.
finish_lem :
    (t : Task) (before rest cs : List Task) (u : Ui)
    → Tracks (before ++ (t ∷ rest)) cs u
    → (before ≡ []) × (rest ≡ []) × (cs ≡ [])
finish_lem t [] [] [] u h = (refl, refl, refl)
finish_lem t [] [] (c ∷ cs) u h = absurd h
finish_lem t [] (r ∷ rest) cs u h = absurd h
finish_lem t (b ∷ []) rest cs u h = absurd h
finish_lem t (b ∷ c ∷ before) rest cs u h = absurd h

ended : (t : Task) (u : Ui) → u.created ≡ [] → (end_task t u).created ≡ []
unfolding end_task boot
ended t u e = ground arith

left-none : (t : Task) → left t [] ≡ []
left-none t = ground arith

step-IsExclusive : {s s' : Scheduled} → PromptStep s s' → IsExclusive s → IsExclusive s'
step-IsExclusive (command s c e) v = record { tracks = command_lem s.started c s.ui e v.tracks }
step-IsExclusive (start s t rest e) v = record {
  tracks = start_lem s.started t rest s.ui e v.tracks;
}
step-IsExclusive (harden s diag e c) v = record {
  tracks = harden_lem s.started diag s.ui e c v.tracks;
}
step-IsExclusive (finish s t before rest e) v =
    let h : Tracks (before ++ (t ∷ rest)) s.ui.created s.ui =
      subst (λ ts. Tracks ts s.ui.created s.ui) e v.tracks in
    let (b, r, c) = finish_lem t before rest s.ui.created s.ui h in
    let none_left : left t (before ++ rest) ≡ [] = rw (b, r) (left-none t) in
    record { tracks = rw (none_left, ended t s.ui c) tt }

keeps-IsExclusive : {s s' : Scheduled} → IsExclusive s → Reaches s s' → IsExclusive s'
keeps-IsExclusive h here = h
keeps-IsExclusive h (next r st) = step-IsExclusive st (keeps-IsExclusive h r)

power_up-IsExclusive : IsExclusive power_up
unfolding boot
power_up-IsExclusive = record { tracks = tt }

Tracks-few : (ts cs : List Task) (u : Ui) → Tracks ts cs u → length ts + length cs ≤ 1
Tracks-few [] [] u h = omega arith
Tracks-few [] (c ∷ []) u h = omega arith
Tracks-few [] (c ∷ d ∷ cs) u h = absurd h
Tracks-few (t ∷ []) [] u h = omega arith
Tracks-few (t ∷ []) (c ∷ cs) u h = absurd h
Tracks-few (t ∷ r ∷ ts) cs u h = absurd h

-- If every created task starts before another is created, then in every state that can be reached
-- from power-up the tasks of the user interface that have started and not ended, and those that are
-- created, are at most one together.
pub Reaches-IsExclusive :
    (s : Scheduled) → Reaches power_up s → length s.started + length s.ui.created ≤ 1
Reaches-IsExclusive s r =
    Tracks-few s.started s.ui.created s.ui (keeps-IsExclusive power_up-IsExclusive r).tracks

-- Without that, two clean commands that come before the first task starts create two cleaning tasks.
pub two_clean_commands :
    (u : Ui)
    → check_run_flag false u ≡ true
    → (on_command clean_cmd (on_command clean_cmd u)).created ≡ clean_task ∷ clean_task ∷ u.created
unfolding on_command check_task_runnable create check_run_flag
two_clean_commands u h = ground arith

abbrev one : Bool → ℕ
one b = if b then 1 else 0

-- The flags that are up.
abbrev pub running : Ui → ℕ
running u =
    one u.pairing_task_run
    + one u.factory_task_run
    + one u.tare_task_run
    + one u.clean_task_run
    + one u.manage_finish_task_run
    + one u.manage_start_task_run

-- A command creates no task, or it creates its own task, with no other task running, and in manage mode
-- exactly if it is the command that ends the manage mode.
pub on_command_guard :
    (c : UiCmd) (u : Ui)
    → ((on_command c u).created ≡ u.created)
      ⊎ (((on_command c u).created ≡ task_of c ∷ u.created)
          × (running u ≡ 0)
          × (u.ui_manage_f ≡ is_finish c))
unfolding on_command check_task_runnable create check_run_flag
on_command_guard c u = ground arith
