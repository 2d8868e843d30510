-- ===== src/Wifi/Link/Attempts.antt =====
-- How often `Wifi_Connect` of main/wifi/wifi_task.c tries, and what ends it.
use cat_litter_box.Common.{
  ℕ, suc, ◌≤◌, Bool, true, false, List, [], ◌∷◌, ◌++◌, take, ◌≡◌, ◌≢◌, refl, sym, ◌∙◌, arith,
  Bool-cases, inl, inr, ◌⊎◌,
}
use cat_litter_box.Wifi.Link.{
  Link, DriverEvent, DriverCall, wifi_set_config, wifi_connect_call, wifi_event_handler,
  wifi_disconnect, wait_bits, Outcome, config_failed, connected, failed, timed_out, outcome,
  abandon, During, wifi_connect,
}
use cat_litter_box.Wifi.Link.Waiting.{
  connects, connects-append, wait_bits-Waited, event-Silent, wait_bits-Silent, connects-abandon,
  disconnect-quiet,
}

abbrev armed : Link → Link
armed s = record s { connected_bit = false; fail_bit = false; retry_num = 0 }

-- The calls of a `Wifi_Connect` that gets so far: those of its wait, and one.
made :
    (before : List DriverCall) (config : DriverCall) (calls : List DriverCall) (o : Outcome)
    → connects before ≡ 0
    → connects (config ∷ []) ≡ 0
    → connects (before ++ (config ∷ wifi_connect_call ∷ (calls ++ abandon o)))
      ≡ suc (connects calls)
made before config calls o q c =
    let tail = wifi_connect_call ∷ (calls ++ abandon o) in
    connects-append before (config ∷ tail)
    ∙ (let e = connects-append (config ∷ []) tail in
        let f = connects-append calls (abandon o) in let z = connects-abandon o in omega arith)

wifi_connect_lem :
    (d : During) (ssid password : List ℕ) (s : Link)
    → (let (calls, (o, s')) = wifi_connect d ssid password s in
        let s₁ = (wifi_disconnect d.ap_connected d.disconnecting s).1 in
        let r = wait_bits d.connecting (armed s₁) in
        ((connects calls ≡ 0) × (o ≡ config_failed) × (s' ≡ s₁) × (d.config_ok ≡ false))
        ⊎ ((connects calls ≡ suc (connects r.0))
            × (o ≡ outcome r.1)
            × (s' ≡ r.1)
            × (d.config_ok ≡ true)))
unfolding wifi_connect
wifi_connect_lem d ssid password s =
    let before = (wifi_disconnect d.ap_connected d.disconnecting s).0 in
    let s₁ = (wifi_disconnect d.ap_connected d.disconnecting s).1 in
    let r = wait_bits d.connecting (armed s₁) in
    let quiet = (disconnect-quiet d.ap_connected d.disconnecting s).0 in
    elim (Bool-cases d.config_ok) [
      | inl y ↦ rw y (
          inr (
            made before (wifi_set_config (take 31 ssid) (take 63 password)) r.0 (outcome r.1) quiet
                refl,
            refl,
            refl,
            refl,
          ))
      | inr n ↦ rw n (inl (connects-append before _ ∙ (omega arith), refl, refl, refl))
    ]

failed-cases : (o : Outcome) → (o ≢ failed) ⊎ (o ≡ failed)
failed-cases config_failed = inl (λ e. absurd (ground arith))
failed-cases connected = inl (λ e. absurd (ground arith))
failed-cases failed = inr refl
failed-cases timed_out = inl (λ e. absurd (ground arith))

-- A call of `Wifi_Connect` calls `esp_wifi_connect` at most six times, and it reports a failure
-- only after all six.
pub wifi_connect-attempts :
    (d : During) (ssid password : List ℕ) (s : Link)
    → let (calls, (o, s')) = wifi_connect d ssid password s in
      (connects calls ≤ 6) × ((o ≢ failed) ⊎ (connects calls ≡ 6))
wifi_connect-attempts d ssid password s = elim (wifi_connect_lem d ssid password s) [
  | inl (c, o, e, n) ↦ (omega arith, inl (λ f. absurd (let e = sym o ∙ f in ground arith)))
  | inr (c, o, e, y) ↦
      let s₁ = (wifi_disconnect d.ap_connected d.disconnecting s).1 in
      let w = wait_bits-Waited d.connecting (armed s₁) (omega arith) (λ b. absurd (cc)) in
      (
        (let b = w.budget in omega arith),
        elim (failed-cases (wifi_connect d ssid password s).1.0) [
          | inl n ↦ inl n
          | inr f ↦ inr (let b = w.spent (sym o ∙ f) in omega arith)
        ],
      )
]

-- What other code does between two attempts.
pub data Step : Type 0 where
  event : DriverEvent → Step
  disconnecting : Bool → List DriverEvent → Step
  connecting : During → (ssid password : List ℕ) → Step

abbrev pub run : List Step → Link → Link
run [] s = s
run (event e ∷ steps) s = run steps (wifi_event_handler e s).1
run (disconnecting b es ∷ steps) s = run steps (wifi_disconnect b es s).1
run (connecting d ssid password ∷ steps) s = run steps (wifi_connect d ssid password s).1.1

-- What a call tells that the handler does not repeat: with its settings taken it tries once, and
-- ends connected or by its timeout; with its settings refused it does not try.
abbrev pub TriesOnce : During → List DriverCall → Outcome → Type 0
TriesOnce d calls o =
    (d.config_ok ≡ true → (connects calls ≡ 1) × ((o ≡ connected) ⊎ (o ≡ timed_out)))
    × (d.config_ok ≡ false → (connects calls ≡ 0) × (o ≡ config_failed))

outcome-no_fail :
    (s : Link) → s.fail_bit ≡ false → (outcome s ≡ connected) ⊎ (outcome s ≡ timed_out)
outcome-no_fail s h = ground arith

connect-off :
    (d : During) (ssid password : List ℕ) (s : Link)
    → s.allow_reconnect ≡ false
    → let (calls, (o, s')) = wifi_connect d ssid password s in
      TriesOnce d calls o × (s'.allow_reconnect ≡ false)
connect-off d ssid password s h =
    let off = (disconnect-quiet d.ap_connected d.disconnecting s).1 (inr h) in
    let s₁ = (wifi_disconnect d.ap_connected d.disconnecting s).1 in
    let quiet = wait_bits-Silent d.connecting (armed s₁) off in
    elim (wifi_connect_lem d ssid password s) [
      | inl (c, o, e, n) ↦ ((λ y. absurd (cc), λ _. (c, o)), rw e off)
      | inr (c, o, e, y) ↦ (
        (
          λ _. (
            (let n = quiet.none_made in omega arith),
            rw o (outcome-no_fail (wait_bits d.connecting (armed s₁)).1 quiet.fail_kept),
          ),
          λ n. absurd (cc),
        ),
        rw e quiet.still_off,
      )
    ]

run-off :
    (steps : List Step) (s : Link)
    → s.allow_reconnect ≡ false
    → (run steps s).allow_reconnect ≡ false
run-off [] s h = h
run-off (event e ∷ steps) s h = run-off steps _ (event-Silent e s h).still_off
run-off (disconnecting b es ∷ steps) s h = run-off steps _ ((disconnect-quiet b es s).1 (inr h))
run-off (connecting d ssid password ∷ steps) s h =
    run-off steps _ (connect-off d ssid password s h).1

-- Once `Wifi_Disconnect` has found a connection, whatever follows, a call of `Wifi_Connect` whose
-- settings the driver takes calls `esp_wifi_connect` once and ends connected or by its timeout, also
-- when the driver reports that it could not connect; one whose settings the driver refuses does not
-- call it and ends as refused.
pub wifi_disconnect-no_retry :
    (s : Link) (es : List DriverEvent) (steps : List Step) (d : During) (ssid password : List ℕ)
    → let (calls, (o, s')) =
        wifi_connect d ssid password (run steps (wifi_disconnect true es s).1) in
      TriesOnce d calls o
wifi_disconnect-no_retry s es steps d ssid password =
    let off = run-off steps _ ((disconnect-quiet true es s).1 (inl refl)) in
    (connect-off d ssid password _ off).0
