-- ===== src/Examples/Wireless.antt =====
-- A search for access points, attempts to connect, and messages for the server.
use cat_litter_box.Common.{ℕ, ◌≤◌, ◌<◌, ◌⊎◌, true, false, [], ◌∷◌, length, ◌≡◌, ◌≢◌, refl}
use cat_litter_box.Common.Int.{negsuc}
use cat_litter_box.Wifi.Scan.{
  ApRecord, scanned, scan_failed, wifi_max_value, wifi_scan_start, scan_loop, collect,
  append_records, remove_duplicate_best_rssi, dedup_loop, find_same, strengthen,
}
use cat_litter_box.Wifi.Scan.Distinct.{Distinct, Contains, CoversAll}
use cat_litter_box.Wifi.Scan.Found.{heard, listed, wifi_scan_start-strongest}
use cat_litter_box.Wifi.Link.{
  boot_link, During, sta_disconnected, failed, wifi_connect, wifi_disconnect, wifi_event_handler,
  handle_events, wait_bits,
}
use cat_litter_box.Wifi.Link.Waiting.{connects}
use cat_litter_box.Wifi.Link.Attempts.{
  TriesOnce, run, wifi_connect-attempts, wifi_disconnect-no_retry,
}

abbrev ap : ℕ → ℕ → ApRecord
ap name weakness = record { ssid = name ∷ []; rssi = negsuc weakness; authmode = 3 }

-- The second scan fails. The third hears the first access point more strongly.
near :
    listed (
      wifi_scan_start true
        (scanned (ap 65 70 ∷ ap 66 50 ∷ ap 65 60 ∷ []))
        scan_failed
        (scanned (ap 65 40 ∷ [])))
    ≡ ap 65 40 ∷ ap 66 50 ∷ []
unfolding wifi_scan_start scan_loop collect append_records remove_duplicate_best_rssi dedup_loop
    find_same strengthen
near = refl

wifi_scan_start-strongest_example :
    let first = scanned (ap 65 70 ∷ ap 66 50 ∷ ap 65 60 ∷ []) in
    let third = scanned (ap 65 40 ∷ []) in
    let records = heard (first ∷ scan_failed ∷ third ∷ []) in
    let aps = listed (wifi_scan_start true first scan_failed third) in
    (length aps ≤ wifi_max_value)
    × Distinct aps
    × Contains records aps
    × ((wifi_max_value < length records) ⊎ CoversAll aps records)
wifi_scan_start-strongest_example =
    wifi_scan_start-strongest (scanned (ap 65 70 ∷ ap 66 50 ∷ ap 65 60 ∷ [])) scan_failed
      (scanned (ap 65 40 ∷ []))

-- A wrong password: the driver gives up each time.
abbrev refused : During
refused = record {
  ap_connected = false;
  disconnecting = [];
  config_ok = true;
  connecting =
      sta_disconnected ∷ sta_disconnected ∷ sta_disconnected ∷ sta_disconnected ∷ sta_disconnected
      ∷ sta_disconnected ∷ [];
}

six_tries : connects (wifi_connect refused (65 ∷ []) (66 ∷ []) boot_link).0 ≡ 6
unfolding wifi_connect wifi_disconnect wifi_event_handler handle_events wait_bits
six_tries = refl

six_at_most :
    let r = wifi_connect refused (65 ∷ []) (66 ∷ []) boot_link in
    (connects r.0 ≤ 6) × ((r.1.0 ≢ failed) ⊎ (connects r.0 ≡ 6))
six_at_most = wifi_connect-attempts refused (65 ∷ []) (66 ∷ []) boot_link

-- The phone changes from one access point to another, whose password is wrong.
wifi_disconnect-no_retry_example :
    let s = run [] (wifi_disconnect true (sta_disconnected ∷ []) boot_link).1 in
    let r = wifi_connect refused (65 ∷ []) (66 ∷ []) s in TriesOnce refused r.0 r.1.0
wifi_disconnect-no_retry_example =
    wifi_disconnect-no_retry boot_link (sta_disconnected ∷ []) [] refused (65 ∷ []) (66 ∷ [])
