-- ===== src/Clean/Interlock/Rules.antt =====
-- The actions of a scenario from posture to posture, one rule for each way to build an action.
use cat_litter_box.Common.{ℕ, Bool, true, false, ◌≡◌, refl, ap, subst, List, if◌then◌else◌}
use cat_litter_box.Motion.{Action}
use cat_litter_box.Clean.World.{
  Event, sent, Shared, Env, World, Exit, ok, abort, starved, M, recover, pure, goto_exit, starve,
  ◌>>=◌, read, with_label, write, delay, send, set_running, set_spin_always_on, continue,
}
use cat_litter_box.Clean.Wait.{Ret, success, failure, or_exit}
use cat_litter_box.Clean.Origin.{returning}
use cat_litter_box.Clean.Interlock.{Posture, after, posture, IsAllowed, IsInterlocked}

abbrev pub At : Posture → List Event → Type 0
At p events = IsInterlocked events × (posture events ≡ p)

abbrev pub Ends : {A : Type 0} → (A → List Event → Type 0) → Exit A × World → Type 0
Ends Q (ok a, w) = Q a w.events
Ends Q (abort, w) = IsInterlocked w.events
Ends Q (starved, w) = IsInterlocked w.events

-- From posture `p` the action stays interlocked, and ends in `q` if it gives a value.
pub record Runs {A : Type 0} (p : Posture) (m : M A) (q : Posture) : Type 0 where
  pub at : (e : Env) (w : World) → At p w.events → Ends (λ a. At q) (m e w)

-- The same for a function that returns -1 where it gives up: the posture is known for 0 alone.
abbrev pub OnSuccess : Posture → Ret → List Event → Type 0
OnSuccess q success events = At q events
OnSuccess q failure events = IsInterlocked events

pub record Yields (p : Posture) (m : M Ret) (q : Posture) : Type 0 where
  pub at : (e : Env) (w : World) → At p w.events → Ends (OnSuccess q) (m e w)

-- An action that sends no drive, or only stops, keeps every posture.
pub record Quiet {A : Type 0} (m : M A) : Type 0 where
  pub at : (p : Posture) → Runs p m p

module _ {A : Type 0} where
  pub pure-Quiet : (a : A) → Quiet (pure a)
  unfolding pure
  pure-Quiet a = record { at = λ p. record { at = λ e w h. h } }

  pub starve-Quiet : Quiet (starve {A = A})
  unfolding starve
  starve-Quiet = record { at = λ p. record { at = λ e w h. h.0 } }

  pub goto_exit-Quiet : Quiet (goto_exit {A = A})
  unfolding goto_exit
  goto_exit-Quiet = record { at = λ p. record { at = λ e w h. h.0 } }

  pub read-Quiet : (f : Shared → A) → Quiet (read f)
  unfolding read
  read-Quiet f = record { at = λ p. record { at = λ e w h. h } }

pub write-Quiet : (f : Shared → Shared) → Quiet (write f)
unfolding write
write-Quiet f = record { at = λ p. record { at = λ e w h. h } }

pub delay-Quiet : (ms : ℕ) → Quiet (delay ms)
unfolding delay
delay-Quiet ms = record { at = λ p. record { at = λ e w h. h } }

pub set_running-Quiet : (b : Bool) → Quiet (set_running b)
unfolding set_running
set_running-Quiet b = record { at = λ p. record { at = λ e w h. h } }

pub set_spin_always_on-Quiet : (b : Bool) → Quiet (set_spin_always_on b)
unfolding set_spin_always_on
set_spin_always_on-Quiet b = record { at = λ p. record { at = λ e w h. h } }

pub send-Runs :
    {p : Posture} (a : Action) → IsAllowed (sent a) p → Runs p (send a) (after (sent a) p)
unfolding send
send-Runs {p} a g = record { at = λ e w h. ((rw h.1 g, h.0), ap (after (sent a)) h.1) }

pub send-Runs_to :
    {p q : Posture} (a : Action) → IsAllowed (sent a) p → after (sent a) p ≡ q → Runs p (send a) q
send-Runs_to {p} a g e = subst (λ q. Runs p (send a) q) e (send-Runs a g)

-- A message that changes no posture and is always allowed: a stop, or one for another part.
pub send-Quiet :
    (a : Action)
    → ((p : Posture) → IsAllowed (sent a) p)
    → ((p : Posture) → after (sent a) p ≡ p)
    → Quiet (send a)
send-Quiet a g e = record { at = λ p. subst (λ q. Runs p (send a) q) (e p) (send-Runs a (g p)) }

module _ {A B : Type 0} where
  pub Runs-bind :
      {p q r : Posture} {m : M A} {f : A → M B}
      → Runs p m q
      → ((a : A) → Runs q (f a) r)
      → Runs p (m >>= f) r
  unfolding ◌>>=◌
  Runs-bind {q = q} {r} {m} {f} km kf = record { at = λ e w h. go e (m e w) (km.at e w h) }
    where
      go :
          (e : Env) (x : Exit A × World)
          → Ends (λ a. At q) x
          → Ends (λ b. At r) (continue x.0 f e x.1)
      go e (ok a, w) h = (kf a).at e w h
      go e (abort, w) h = h
      go e (starved, w) h = h

  pub Quiet-bind : {m : M A} {f : A → M B} → Quiet m → ((a : A) → Quiet (f a)) → Quiet (m >>= f)
  Quiet-bind km kf = record { at = λ p. Runs-bind (km.at p) (λ a. (kf a).at p) }

  pub Runs-Quiet :
      {p r : Posture} {m : M A} {f : A → M B}
      → Quiet m
      → ((a : A) → Runs p (f a) r)
      → Runs p (m >>= f) r
  Runs-Quiet {p} km kf = Runs-bind (km.at p) kf

module _ {B : Type 0} where
  pub Runs-send :
      {p r : Posture} (a : Action) {f : Unit {0} → M B}
      → IsAllowed (sent a) p
      → ((u : Unit {0}) → Runs (after (sent a) p) (f u) r)
      → Runs p (send a >>= f) r
  Runs-send a g k = Runs-bind (send-Runs a g) k

module _ {A : Type 0} where
  pub Quiet-if : (b : Bool) {m n : M A} → Quiet m → Quiet n → Quiet (if b then m else n)
  Quiet-if true km kn = km
  Quiet-if false km kn = kn

  pub Runs-if :
      {p q : Posture} (b : Bool) {m n : M A}
      → Runs p m q
      → Runs p n q
      → Runs p (if b then m else n) q
  Runs-if true km kn = km
  Runs-if false km kn = kn

  pub Quiet-Runs : {p : Posture} {m : M A} → Quiet m → Runs p m p
  Quiet-Runs {p} k = k.at p

  pub goto_exit-Runs : {p : Posture} (q : Posture) → Runs p (goto_exit {A = A}) q
  unfolding goto_exit
  goto_exit-Runs q = record { at = λ e w h. h.0 }

module _ {p q : Posture} where
  -- `ret ← m; or_exit ret`
  pub Yields-or_exit : {m : M Ret} → Yields p m q → Runs p (m >>= λ ret. or_exit ret) q
  unfolding ◌>>=◌ or_exit pure goto_exit
  Yields-or_exit {m} k = record { at = λ e w h. go e (m e w) (k.at e w h) }
    where
      go :
          (e : Env) (x : Exit Ret × World)
          → Ends (OnSuccess q) x
          → Ends (λ a. At q) (continue x.0 (λ ret. or_exit ret) e x.1)
      go e (ok success, w) h = h
      go e (ok failure, w) h = h
      go e (abort, w) h = h
      go e (starved, w) h = h

module _ {p q : Posture} where
  -- A body that ends by `return 0`, with such a label.
  pub Yields-returning :
      {m : M (Unit {0})} (exit : M Ret)
      → Runs p m q
      → ((e : Env) (w : World) → IsInterlocked w.events → Ends (OnSuccess q) (exit e w))
      → Yields p (returning m exit) q
  unfolding returning with_label ◌>>=◌ pure
  Yields-returning {m} exit k l = record { at = λ e w h. go e (m e w) (k.at e w h) }
    where
      go :
          (e : Env) (x : Exit (Unit {0}) × World)
          → Ends (λ a. At q) x
          → Ends
              (OnSuccess q)
              (let (y, w) = continue x.0 (λ u. pure success) e x.1 in recover y exit e w)
      go e (ok a, w) h = h
      go e (abort, w) h = l e w h
      go e (starved, w) h = h

pub or_exit-Quiet : (ret : Ret) → Quiet (or_exit ret)
unfolding or_exit
or_exit-Quiet success = pure-Quiet tt
or_exit-Quiet failure = goto_exit-Quiet

pub ruleset quiet_rules = (
  pure-Quiet, starve-Quiet, goto_exit-Quiet, read-Quiet, write-Quiet, delay-Quiet,
  set_running-Quiet, set_spin_always_on-Quiet, or_exit-Quiet, send-Quiet, Quiet-bind, Quiet-if,
)

pub ruleset runs_rules =
    (quiet_rules, Runs-Quiet, Runs-send, send-Runs_to, Runs-if, Quiet-Runs, goto_exit-Runs)

-- What the rules are for: the events stay interlocked however the action ends, and a value is given
-- in posture `q` alone.
pub Runs-IsInterlocked :
    {A : Type 0} {m : M A} {q : Posture} (e : Env) (w : World)
    → Runs (posture w.events) m q
    → IsInterlocked w.events
    → IsInterlocked (m e w).1.events × ((a : A) → (m e w).0 ≡ ok a → posture (m e w).1.events ≡ q)
Runs-IsInterlocked {A} {m} {q} e w k h = go (m e w) (k.at e w (h, refl))
  where
    go :
        (x : Exit A × World)
        → Ends (λ a. At q) x
        → IsInterlocked x.1.events × ((a : A) → x.0 ≡ ok a → posture x.1.events ≡ q)
    go (ok a, w') h = (h.0, λ b e. h.1)
    go (abort, w') h = (h, λ b e. cc)
    go (starved, w') h = (h, λ b e. cc)
