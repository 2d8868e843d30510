-- ===== src/Wifi/Link/Waiting.antt =====
-- How a wait for the driver's events in main/wifi/wifi_task.c uses up the repetitions.
use cat_litter_box.Common.{
  ℕ, suc, ◌+◌, ◌≤◌, ◌<◌, Bool, true, false, ◌||◌, List, [], ◌∷◌, ◌++◌, ◌≡◌, refl, ◌∙◌, arith,
  Bool-cases, inl, inr, ◌⊎◌,
}
use cat_litter_box.Wifi.Link.{
  Link, DriverEvent, sta_start, sta_disconnected, sta_got_ip, DriverCall, wifi_set_config,
  wifi_connect_call, wifi_disconnect_call, sntp_init, connect_ap_fail, wifi_event_handler,
  handle_events, wifi_disconnect, wait_bits, Outcome, config_failed, connected, failed, timed_out,
  outcome, abandon,
}

-- The calls of `esp_wifi_connect`.
abbrev pub connects : List DriverCall → ℕ
connects [] = 0
connects (wifi_connect_call ∷ cs) = suc (connects cs)
connects (wifi_set_config ssid password ∷ cs) = connects cs
connects (wifi_disconnect_call ∷ cs) = connects cs
connects (sntp_init ∷ cs) = connects cs
connects (connect_ap_fail ∷ cs) = connects cs

pub connects-append : (cs ds : List DriverCall) → connects (cs ++ ds) ≡ connects cs + connects ds
connects-append [] ds = omega arith
connects-append (wifi_connect_call ∷ cs) ds = omega (arith, connects-append cs ds)
connects-append (wifi_set_config ssid password ∷ cs) ds = connects-append cs ds
connects-append (wifi_disconnect_call ∷ cs) ds = connects-append cs ds
connects-append (sntp_init ∷ cs) ds = connects-append cs ds
connects-append (connect_ap_fail ∷ cs) ds = connects-append cs ds

-- A wait that starts with `retry_num` repetitions used.
pub record Waited (s : Link) (r : List DriverCall × Link) : Type 0 where
  pub budget : connects r.0 + s.retry_num ≤ 5
  pub spent : outcome r.1 ≡ failed → connects r.0 + s.retry_num ≡ 5

outcome_failed : (s : Link) → outcome s ≡ failed → s.fail_bit ≡ true
outcome_failed s h = ground arith

wait_bits-stop :
    (es : List DriverEvent) (s : Link)
    → s.connected_bit || s.fail_bit ≡ true
    → wait_bits es s ≡ ([], s)
unfolding wait_bits
wait_bits-stop [] s h = refl
wait_bits-stop (e ∷ es) s h = rw h refl

Waited-stop :
    (s : Link) → s.retry_num ≤ 5 → (s.fail_bit ≡ true → s.retry_num ≡ 5) → Waited s ([], s)
Waited-stop s h f = record {
  budget = omega arith;
  spent = λ o. let e = f (outcome_failed s o) in omega arith;
}

wait_bits-go :
    (e : DriverEvent) (es : List DriverEvent) (s : Link)
    → s.connected_bit || s.fail_bit ≡ false
    → wait_bits (e ∷ es) s ≡ (
        let (calls, s') = wifi_event_handler e s in
        let (rest, s'') = wait_bits es s' in (calls ++ rest, s''))
unfolding wait_bits
wait_bits-go e es s h = rw h refl

start_lem : (s : Link) → wifi_event_handler sta_start s ≡ ([], s)
unfolding wifi_event_handler
start_lem s = refl

got_ip_lem :
    (s : Link)
    → wifi_event_handler sta_got_ip s
      ≡ (sntp_init ∷ [], record s { retry_num = 0; connected_bit = true })
unfolding wifi_event_handler
got_ip_lem s = refl

disconnected-cases :
    (s : Link)
    → (let r = wifi_event_handler sta_disconnected s in
        ((s.retry_num < 5)
          × (r ≡ (wifi_connect_call ∷ [], record s { retry_num = s.retry_num + 1 })))
        ⊎ (((5 ≤ s.retry_num) × (r ≡ ([], record s { fail_bit = true }))) ⊎ (r ≡ ([], s))))
unfolding wifi_event_handler
disconnected-cases s = ground arith

go-Waited :
    (e : DriverEvent) (es : List DriverEvent) (s : Link)
    → s.retry_num ≤ 5
    → s.connected_bit || s.fail_bit ≡ false
    → ((s : Link)
        → s.retry_num ≤ 5
        → (s.fail_bit ≡ true → s.retry_num ≡ 5)
        → Waited s (wait_bits es s))
    → (let (calls, s') = wifi_event_handler e s in
        let (rest, s'') = wait_bits es s' in Waited s (calls ++ rest, s''))
go-Waited sta_start es s h n ih = rw (start_lem s) (ih s h (λ b. absurd (ground arith)))
go-Waited sta_got_ip es s h n ih =
    rw (got_ip_lem s, wait_bits-stop es (record s { retry_num = 0; connected_bit = true }) refl)
      (record { budget = omega arith; spent = λ o. absurd (ground arith) })
go-Waited sta_disconnected es s h n ih = elim (disconnected-cases s) [
  | inl (l, e) ↦
      let s' = record s { retry_num = s.retry_num + 1 } in
      let w : Waited s' (wait_bits es s') = ih s' (omega arith) (λ b. absurd (ground arith)) in
      rw e (record {
        budget = let b = w.budget in omega arith;
        spent = λ o. let b = w.spent o in omega arith;
      })
  | inr (inl (l, e)) ↦
      let w = ih (record s { fail_bit = true }) h (λ b. omega arith) in
      rw e (record { budget = w.budget; spent = w.spent })
  | inr (inr e) ↦ rw e (ih s h (λ b. absurd (ground arith)))
]

pub wait_bits-Waited :
    (es : List DriverEvent) (s : Link)
    → s.retry_num ≤ 5
    → (s.fail_bit ≡ true → s.retry_num ≡ 5)
    → Waited s (wait_bits es s)
unfolding wait_bits
wait_bits-Waited [] s h f = Waited-stop s h f
wait_bits-Waited (e ∷ es) s h f = elim (Bool-cases (s.connected_bit || s.fail_bit)) [
  | inl y ↦ rw (wait_bits-stop (e ∷ es) s y) (Waited-stop s h f)
  | inr n ↦ rw (wait_bits-go e es s n) (go-Waited e es s h n (wait_bits-Waited es))
]

-- What events leave alone once the reconnection has been switched off.
pub record Silent (s : Link) (r : List DriverCall × Link) : Type 0 where
  pub none_made : connects r.0 ≡ 0
  pub still_off : r.1.allow_reconnect ≡ false
  pub fail_kept : r.1.fail_bit ≡ s.fail_bit

pub event-Silent :
    (e : DriverEvent) (s : Link) → s.allow_reconnect ≡ false → Silent s (wifi_event_handler e s)
unfolding wifi_event_handler
event-Silent sta_start s h = record { none_made = refl; still_off = h; fail_kept = refl }
event-Silent sta_disconnected s h =
    simp h (record { none_made = refl; still_off = h; fail_kept = refl })
event-Silent sta_got_ip s h = record { none_made = refl; still_off = h; fail_kept = refl }

Silent-then :
    (s : Link) (r r' : List DriverCall × Link)
    → Silent s r
    → Silent r.1 r'
    → Silent s (r.0 ++ r'.0, r'.1)
Silent-then s r r' a b = record {
  none_made =
      connects-append r.0 r'.0 ∙ (let x = a.none_made in let y = b.none_made in omega arith);
  still_off = b.still_off;
  fail_kept = b.fail_kept ∙ a.fail_kept;
}

handle_events-Silent :
    (es : List DriverEvent) (s : Link) → s.allow_reconnect ≡ false → Silent s (handle_events es s)
unfolding handle_events
handle_events-Silent [] s h = record { none_made = refl; still_off = h; fail_kept = refl }
handle_events-Silent (e ∷ es) s h =
    let r = wifi_event_handler e s in
    let one : Silent s r = event-Silent e s h in
    Silent-then s r (handle_events es r.1) one (handle_events-Silent es r.1 one.still_off)

pub wait_bits-Silent :
    (es : List DriverEvent) (s : Link) → s.allow_reconnect ≡ false → Silent s (wait_bits es s)
unfolding wait_bits
wait_bits-Silent [] s h = (record { none_made = refl; still_off = h; fail_kept = refl })
wait_bits-Silent (e ∷ es) s h = elim (Bool-cases (s.connected_bit || s.fail_bit)) [
  | inl y ↦
      rw (wait_bits-stop (e ∷ es) s y)
        (record { none_made = refl; still_off = h; fail_kept = refl })
  | inr n ↦
      let r = wifi_event_handler e s in
      let one : Silent s r = event-Silent e s h in
      rw (wait_bits-go e es s n)
        (Silent-then s r (wait_bits es r.1) one (wait_bits-Silent es r.1 one.still_off))
]

pub connects-abandon : (o : Outcome) → connects (abandon o) ≡ 0
connects-abandon config_failed = refl
connects-abandon connected = refl
connects-abandon failed = refl
connects-abandon timed_out = refl

-- A disconnection calls no `esp_wifi_connect`, and one that finds a connection switches it off.
pub disconnect-quiet :
    (b : Bool) (es : List DriverEvent) (s : Link)
    → (connects (wifi_disconnect b es s).0 ≡ 0)
      × ((b ≡ true) ⊎ (s.allow_reconnect ≡ false)
          → (wifi_disconnect b es s).1.allow_reconnect ≡ false)
unfolding wifi_disconnect
disconnect-quiet true es s =
    let q = handle_events-Silent es (record s { allow_reconnect = false }) refl in
    (q.none_made, λ h. q.still_off)
disconnect-quiet false es s = (refl, λ h. elim h [ inl e ↦ absurd (cc) | inr e ↦ e ])
