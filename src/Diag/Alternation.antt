-- ===== src/Diag/Alternation.antt =====
-- What main/diag.c sends while a mode that turns a motor back and forth lasts.
use cat_litter_box.Common.{
  ℕ, zero, suc, ◌+◌, ◌≤◌, ◌<◌, le_or_lt, true, false, List, ◌∷◌, ◌≡◌, refl, ap, ◌∙◌, sym, subst,
  arith, Bool-cases, inl, inr, ◌⊎◌, Bool,
}
use cat_litter_box.Motion.{Action, Direction, forward, reverse, stop, plate_cmd, plate}
use cat_litter_box.Clean.World.{
  Shared, Env, World, Event, Exit, ok, pure, ◌>>=◌, interfere, read, write, delay, send,
}
use cat_litter_box.Diag.{
  DiagMode, diag_plate, start_diag_mode, finish_diag_mode, next_diag_func, diag_sensor_round,
  next_func, diag_loop, do_diag_mode,
}

abbrev pub flip : Direction → Direction
flip forward = reverse
flip reverse = forward
flip stop = stop

-- The direction after so many presses of the function's key, and its `diag_func`.
abbrev pub direction : ℕ → Direction
direction zero = forward
direction (suc k) = flip (direction k)

abbrev func_of : Direction → ℕ
func_of forward = 0
func_of reverse = 1
func_of stop = 2

-- A mode in which each press of the function's key sends one message, in the other direction.
record Alternating (mode : DiagMode) (msg : Direction → Action) : Type 0 where
  next :
      (k : ℕ) (e : Env) (w : World)
      → next_diag_func mode (func_of (direction k) + 1) e w ≡ (
        ok (func_of (direction (suc k))),
        record w {
          log = msg (direction (suc k)) ∷ w.log;
          events = Event.sent (msg (direction (suc k))) ∷ w.events;
        },
      )
  unread : (e : Env) (w : World) → diag_sensor_round mode e w ≡ (ok tt, w)

direction-cases : (k : ℕ) → (direction k ≡ forward) ⊎ (direction k ≡ reverse)
direction-cases zero = inl refl
direction-cases (suc k) = elim (direction-cases k) [
  | inl h ↦ inr (ap flip h)
  | inr h ↦ inl (ap flip h)
]

abbrev pub plate_msg : Direction → Action
plate_msg d = plate plate_cmd 0 d 0

-- From the access `last` on, the key of the next step has been pressed.
abbrev pub Raised : Env → ℕ → Type 0
Raised e last = (n : ℕ) (s : Shared) → last ≤ n → (e.step n s).diag_next_step ≡ true

before :
    (e : Env) (w : World) (last : ℕ)
    → Raised e last
    → (interfere e w).shared.diag_next_step ≡ false
    → w.ticks < last
unfolding interfere
before e w last h n = elim (le_or_lt last w.ticks) [
  | inl l ↦ absurd (let p = h w.ticks w.shared l in cc)
  | inr l ↦ l
]

-- A round by what it finds of the two flags.
abbrev count_round : Bool → Bool → (Unit {0} → ℕ) → (Unit {0} → ℕ) → ℕ
count_round true found taken other = 0
count_round false true taken other = suc (taken tt)
count_round false false taken other = other tt

-- How many rounds, 10 ms apart, find the flag up that the function's key raises, and take it down,
-- before one finds the flag of the next step's key up. The first access of the first round is the
-- n-th.
abbrev pub presses : ℕ → Env → ℕ → Shared → ℕ
presses zero e n s = 0
presses (suc fuel) e n s =
    let s₁ = e.step n s in
    let s₂ = e.step (suc n) s₁ in
    let taken = record (e.step (suc (suc n)) s₂) { diag_next_func = false } in
    count_round s₁.diag_next_step s₂.diag_next_func
      (λ u. presses fuel e (suc (suc (suc (suc n)))) (e.delay (suc (suc (suc n))) 10 taken))
      (λ u. presses fuel e (suc (suc (suc n))) (e.delay (suc (suc n)) 10 s₂))

one_more : (k m : ℕ) → k + suc m ≡ suc k + m
one_more k m = omega arith

count_round-taken :
    {step found : Bool} (taken other : Unit {0} → ℕ)
    → step ≡ false
    → found ≡ true
    → count_round step found taken other ≡ suc (taken tt)
count_round-taken {step} {found} taken other h y =
    ap (λ b. count_round b found taken other) h ∙ ap (λ b. count_round false b taken other) y

count_round-other :
    {step found : Bool} (taken other : Unit {0} → ℕ)
    → step ≡ false
    → found ≡ false
    → count_round step found taken other ≡ other tt
count_round-other {step} {found} taken other h q =
    ap (λ b. count_round b found taken other) h ∙ ap (λ b. count_round false b taken other) q

count_round-ended :
    {step : Bool} (found : Bool) (taken other : Unit {0} → ℕ)
    → step ≡ true
    → count_round step found taken other ≡ 0
count_round-ended found taken other h = ap (λ b. count_round b found taken other) h

module _ (msg : Direction → Action) where
  -- The messages of `k` presses, newest first, on top of a log.
  abbrev pub alternation : ℕ → List Action → List Action
  alternation zero log = msg forward ∷ log
  alternation (suc k) log = msg (direction (suc k)) ∷ alternation k log

  module _ (mode : DiagMode) (a : Alternating mode msg) where
    record Alternates (base : List Action) (k : ℕ) (r : Exit (Unit {0}) × World) : Type 0 where
      sent : r.1.log ≡ alternation k base
      ends : r.0 ≡ ok tt

    next_func-none :
        (f : ℕ) (e : Env) (w : World)
        → (interfere e w).shared.diag_next_func ≡ false
        → next_func mode f e w ≡ (ok f, interfere e w)
    unfolding next_func ◌>>=◌ read pure
    next_func-none f e w h = rw h refl

    -- The state after a press, the `k + 1`-th, has been taken.
    abbrev turned : ℕ → Env → World → World
    turned k e w =
        let w₁ = interfere e w in
        let w₂ = interfere e (record w₁ {
          log = msg (direction (suc k)) ∷ w₁.log;
          events = Event.sent (msg (direction (suc k))) ∷ w₁.events;
        }) in
        record w₂ { shared = record w₂.shared { diag_next_func = false } }

    next_func-some :
        (k : ℕ) (e : Env) (w : World)
        → (interfere e w).shared.diag_next_func ≡ true
        → next_func mode (func_of (direction k)) e w
          ≡ (ok (func_of (direction (suc k))), turned k e w)
    unfolding next_func ◌>>=◌ read pure write interfere
    next_func-some k e w h = rw h (rw a.next refl)

    loop_leaves :
        (fuel f : ℕ) (e : Env) (w : World)
        → (interfere e w).shared.diag_next_step ≡ true
        → (let r = diag_loop (suc fuel) mode f e w in (r.0 ≡ ok tt) × (r.1.log ≡ w.log))
    unfolding diag_loop ◌>>=◌ read write interfere
    loop_leaves fuel f e w h = rw h (refl, refl)

    loop_goes :
        (fuel f f' : ℕ) (e : Env) (w w' : World)
        → (interfere e w).shared.diag_next_step ≡ false
        → next_func mode f e (interfere e w) ≡ (ok f', w')
        → diag_loop (suc fuel) mode f e w ≡ diag_loop fuel mode f' e (delay 10 e w').1
    unfolding diag_loop ◌>>=◌ read delay
    loop_goes fuel f f' e w w' h n = simp h (rw (n, a.unread) refl)

    -- A round that goes on, after `k` presses: it ends in the state `after` when there have been
    -- `done`.
    record GoesOn (fuel k : ℕ) (e : Env) (w : World) (r : Exit (Unit {0}) × World) : Type 0 where
      done : ℕ
      after : World
      rest : r ≡ diag_loop fuel mode (func_of (direction done)) e after
      sent : (base : List Action) → w.log ≡ alternation k base → after.log ≡ alternation done base
      later : w.ticks < after.ticks
      counted :
          k + presses (suc fuel) e w.ticks w.shared ≡ done + presses fuel e after.ticks after.shared

    loop_round :
        (fuel k : ℕ) (e : Env) (w : World)
        → (interfere e w).shared.diag_next_step ≡ false
        → GoesOn fuel k e w (diag_loop (suc fuel) mode (func_of (direction k)) e w)
    unfolding delay interfere
    loop_round fuel k e w n =
        let w₁ = interfere e w in
        elim (Bool-cases (interfere e w₁).shared.diag_next_func) [
          | inl y ↦ record {
            done = suc k;
            after = (delay 10 e (turned k e w₁)).1;
            rest =
                loop_goes fuel (func_of (direction k)) (func_of (direction (suc k))) e w
                  (turned k e w₁) n (next_func-some k e w₁ y);
            sent = λ base h. ap (◌∷◌ (msg (direction (suc k)))) h;
            later = omega arith;
            counted = ap (λ m. k + m) (count_round-taken _ _ n y) ∙ one_more k _;
          }
          | inr q ↦ record {
            done = k;
            after = (delay 10 e (interfere e w₁)).1;
            rest =
                loop_goes fuel (func_of (direction k)) (func_of (direction k)) e w (interfere e w₁)
                  n (next_func-none (func_of (direction k)) e w₁ q);
            sent = λ base h. h;
            later = omega arith;
            counted = ap (λ m. k + m) (count_round-other _ _ n q);
          }
        ]

    none_left :
        (fuel : ℕ) (e : Env) (w : World)
        → (interfere e w).shared.diag_next_step ≡ true
        → presses (suc fuel) e w.ticks w.shared ≡ 0
    unfolding interfere
    none_left fuel e w h = count_round-ended _ _ _ h

    loop-Alternates :
        (fuel k total : ℕ) (base : List Action) (e : Env) (w : World) (last : ℕ)
        → Raised e last
        → 0 < fuel
        → last < w.ticks + fuel
        → w.log ≡ alternation k base
        → total ≡ k + presses fuel e w.ticks w.shared
        → Alternates base total (diag_loop fuel mode (func_of (direction k)) e w)
    loop-Alternates zero k total base e w last h z b l t = absurd (omega arith)
    loop-Alternates (suc fuel) k total base e w last h z b l t =
        elim (Bool-cases (interfere e w).shared.diag_next_step) [
          | inl y ↦
              let (o, s) = loop_leaves fuel (func_of (direction k)) e w y in
              let none = none_left fuel e w y in
              let all : k ≡ total = omega arith in
              subst (λ m. Alternates base m (diag_loop (suc fuel) mode (func_of (direction k)) e w))
                all (record { sent = s ∙ l; ends = o })
          | inr n ↦
              let g = loop_round fuel k e w n in
              let early : w.ticks < last = before e w last h n in
              let later = g.later in
              subst (λ r. Alternates base total r) (sym g.rest)
                (loop-Alternates fuel g.done total base e g.after last h (omega arith) (omega arith)
                  (g.sent base l) (t ∙ g.counted))
        ]

plate-Alternating : Alternating diag_plate plate_msg
unfolding next_diag_func ◌>>=◌ pure send diag_sensor_round
plate-Alternating = record {
  next = λ k e w. elim (direction-cases k) [ inl d ↦ rw d refl | inr d ↦ rw d refl ];
  unread = λ e w. refl;
}

-- Once the key of the next step has been pressed, the mode of the plate is over: it has turned the
-- plate forward, then in the other direction once for each round that found the flag of the
-- function's key up, which it takes down, and stopped it.
pub do_diag_mode-plate :
    (fuel last : ℕ) (e : Env) (w : World)
    → Raised e last
    → last < fuel
    → let r = do_diag_mode fuel diag_plate e w in
      (r.0 ≡ ok tt)
      × (r.1.log ≡ plate_msg stop ∷ alternation plate_msg (presses fuel e w.ticks w.shared) w.log)
unfolding do_diag_mode ◌>>=◌ start_diag_mode finish_diag_mode send
do_diag_mode-plate fuel last e w h b =
    let started = record w {
      log = plate_msg forward ∷ w.log;
      events = Event.sent (plate_msg forward) ∷ w.events;
    } in
    let a =
      loop-Alternates plate_msg diag_plate plate-Alternating fuel 0
        (presses fuel e w.ticks w.shared) w.log e started last h (omega arith) (omega arith) refl
        (omega arith) in
    let whole : (diag_loop fuel diag_plate 0 e started)
        ≡ (ok tt, (diag_loop fuel diag_plate 0 e started).1) =
      ap (λ x. (x, (diag_loop fuel diag_plate 0 e started).1)) a.ends in
    rw whole (refl, ap (◌∷◌ (plate_msg stop)) a.sent)
