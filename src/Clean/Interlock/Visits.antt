-- ===== src/Clean/Interlock/Visits.antt =====
-- The manage scenarios of main/motor.c never drive a part against the interlocks.
use cat_litter_box.Common.{ℕ, ◌≡◌, refl}
use cat_litter_box.Motion.{forward}
use cat_litter_box.Clean.World.{Env, World, Exit, ok, abort, starved, ◌>>=◌, pure, write, M}
use cat_litter_box.Clean.Wait.{Ret, success, failure}
use cat_litter_box.Clean.Recovery.{write_tof_enable}
use cat_litter_box.Clean.Manage.{
  manage_start_body, manage_exit, do_manage_start, manage_finish_body, do_manage_finish,
}
use cat_litter_box.Clean.Interlock.{Place, ended, Posture, posture, IsInterlocked}
use cat_litter_box.Clean.Interlock.Rules.{
  Ends, OnSuccess, Runs, Yields, Runs-bind, Yields-returning, runs_rules, Runs-Quiet, Runs-send,
  delay-Quiet,
}
use cat_litter_box.Clean.Interlock.Waits.{write_tof_enable-Quiet}
use cat_litter_box.Clean.Interlock.Arrivals.{last, await_rules, Runs-await_in}
use cat_litter_box.Clean.Interlock.Parts.{drive_open-Runs, drive_close-Runs}
use cat_litter_box.Clean.Interlock.Scenarios.{out, home}

manage_exit-Ends :
    (q : Posture) (e : Env) (w : World)
    → IsInterlocked w.events
    → Ends (OnSuccess q) (manage_exit e w)
unfolding manage_exit ◌>>=◌ write_tof_enable write pure
manage_exit-Ends q e w h = h

do_manage_start-Yields : {s c : Place} (fuel : ℕ) → Yields (last s c) (do_manage_start fuel) out
unfolding do_manage_start manage_start_body
do_manage_start-Yields {s} {c} fuel = Yields-returning _ body (manage_exit-Ends _)
  where
    body : Runs (last s c) (manage_start_body fuel) out
    body = Runs-send _ tt λ _. Runs-Quiet (write_tof_enable-Quiet _) λ _.
        Runs-bind (drive_open-Runs fuel _)
          λ _. search (runs_rules, await_rules, write_tof_enable-Quiet) depth 24

do_manage_finish-Yields :
    {s : Place} (fuel : ℕ) → Yields (last s (ended forward)) (do_manage_finish fuel) home
unfolding do_manage_finish manage_finish_body
do_manage_finish-Yields {s} fuel = Yields-returning _ body (manage_exit-Ends _)
  where
    body : Runs (last s (ended forward)) (manage_finish_body fuel) home
    body = Runs-Quiet (write_tof_enable-Quiet _) λ _. Runs-send _ refl λ _.
        Runs-Quiet (delay-Quiet _) λ _. Runs-await_in _ _ λ _. Runs-send _ tt λ _.
          Runs-bind (drive_close-Runs fuel _)
            λ _. search (runs_rules, await_rules, write_tof_enable-Quiet) depth 24

-- What a log and a result of -1 or 0 say of the posture.
Yields-IsInterlocked :
    {m : M Ret} {q : Posture} (e : Env) (w : World)
    → Yields (posture w.events) m q
    → IsInterlocked w.events
    → IsInterlocked (m e w).1.events × ((m e w).0 ≡ ok success → posture (m e w).1.events ≡ q)
Yields-IsInterlocked {m} {q} e w k h = go (m e w) (k.at e w (h, refl))
  where
    go :
        (x : Exit Ret × World)
        → Ends (OnSuccess q) x
        → IsInterlocked x.1.events × (x.0 ≡ ok success → posture x.1.events ≡ q)
    go (ok success, w') h = (h.0, λ _. h.1)
    go (ok failure, w') h = (h, λ e. cc)
    go (abort, w') h = (h, λ e. cc)
    go (starved, w') h = (h, λ e. cc)

-- A manage session: if `do_manage_start` returns 0 and `do_manage_finish` then runs, whatever the
-- other tasks do, each message of both was allowed when it was sent: the slide was driven only after
-- a wait had seen the main cover's opening end, and the main cover was closed only after one had seen
-- the scoop's coming in end. If `do_manage_finish` returns 0, the scoop's coming in and the cover's
-- closing were both seen to end.
pub manage_session-IsInterlocked :
    (fuel : ℕ) (e e' : Env) (w w' : World)
    → IsInterlocked w.events
    → (do_manage_start fuel e w).0 ≡ ok success
    → w'.events ≡ (do_manage_start fuel e w).1.events
    → IsInterlocked (do_manage_start fuel e w).1.events
      × IsInterlocked (do_manage_finish fuel e' w').1.events
      × ((do_manage_finish fuel e' w').0 ≡ ok success
          → posture (do_manage_finish fuel e' w').1.events ≡ home)
manage_session-IsInterlocked fuel e e' w w' h started same =
    let (h1, at_out) = Yields-IsInterlocked e w (do_manage_start-Yields fuel) h in
    let p : posture w'.events ≡ out = rw same (at_out started) in
    let k : Yields (posture w'.events) (do_manage_finish fuel) home =
      rw p (do_manage_finish-Yields fuel) in
    let (h2, at_home) = Yields-IsInterlocked e' w' k (rw same h1) in (h1, h2, at_home)
