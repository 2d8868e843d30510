-- ===== src/Ble/Crypto/Handshake.antt =====
-- The session key of main/crypto/ble_crypto.c after each step of the handshake
use cat_litter_box.Common.{
  ℕ, true, false, Option, none, some, List, ◌∷◌, length, ◌==◌, ◌≡◌, refl, arith, Bool-cases, inl,
  inr, ◌⊎◌,
}
use cat_litter_box.Ble.Crypto.{
  MbedTls, Session, zero_key, new_session, set_up, made_public, derive, with_secret, with_public,
  with_raw, ble_crypto_init_and_get_pubkey, ble_crypto_compute_session_key,
}

module _ (mbed : MbedTls) where
  -- No key was agreed on, and the key is 32 zero bytes.
  abbrev pub Unkeyed : Session mbed → Type 0
  Unkeyed s = (s.is_encrypted ≡ false) × (s.session_key ≡ zero_key)

  -- The key was derived from a secret of 32 bytes.
  abbrev pub Derived : Session mbed → Type 0
  Derived s =
      (s.is_encrypted ≡ true)
      × ((secret : List ℕ) × (length secret ≡ 32) × (mbed.hkdf secret ≡ some s.session_key))

  abbrev pub Keyed : Session mbed → Type 0
  Keyed s = Unkeyed s ⊎ Derived s

  set_up-Unkeyed :
      (random : List ℕ) (max_len : ℕ) (s : Session mbed) (e : Option mbed.Ecdh)
      → Unkeyed s
      → Unkeyed (set_up mbed random max_len s e).1
  set_up-Unkeyed random max_len s none h = h
  set_up-Unkeyed random max_len s (some e) h =
      elim (mbed.ecdh_make_public random e)
        as (λ p. Unkeyed (made_public mbed max_len (record s { ecdh = e }) p).1) [
          | none ↦ h
          | some p ↦ h
        ]

  pub init-Unkeyed :
      (random : List ℕ) (max_len : ℕ) (s : Session mbed)
      → Unkeyed (ble_crypto_init_and_get_pubkey mbed random max_len s).1
  unfolding ble_crypto_init_and_get_pubkey
  init-Unkeyed random max_len s =
      set_up-Unkeyed random max_len (new_session mbed) (mbed.ecdh_setup mbed.ecdh_init) (refl, refl)

  derive-Keyed :
      (s : Session mbed) (secret : List ℕ) (key : Option (List ℕ))
      → length secret ≡ 32
      → mbed.hkdf secret ≡ key
      → Unkeyed s
      → Keyed (derive mbed s key).1
  derive-Keyed s secret none l e h = inl h
  derive-Keyed s secret (some key) l e h = inr (refl, (secret, l, e))

  with_secret-Keyed :
      (s : Session mbed) (secret : Option (List ℕ))
      → Unkeyed s
      → Keyed (with_secret mbed s secret).1
  with_secret-Keyed s none h = inl h
  with_secret-Keyed s (some secret) h = elim (Bool-cases (length secret == 32)) [
    | inl y ↦ rw y (derive-Keyed s secret (mbed.hkdf secret) (ground arith) refl h)
    | inr n ↦ rw n (inl h)
  ]

  with_public-Keyed :
      (random : List ℕ) (s : Session mbed) (e : Option mbed.Ecdh)
      → Unkeyed s
      → Keyed (with_public mbed random s e).1
  with_public-Keyed random s none h = inl h
  with_public-Keyed random s (some e) h =
      with_secret-Keyed (record s { ecdh = e }) (mbed.ecdh_calc_secret random e) h

  with_raw-Keyed :
      (random : List ℕ) (s : Session mbed) (raw : Option (List ℕ))
      → Unkeyed s
      → Keyed (with_raw mbed random s raw).1
  with_raw-Keyed random s none h = inl h
  with_raw-Keyed random s (some raw) h = elim (Bool-cases (length raw == 32)) [
    | inl y ↦ rw y (with_public-Keyed random s (mbed.ecdh_read_public (32 ∷ raw) s.ecdh) h)
    | inr n ↦ rw n (inl h)
  ]

  pub compute-Keyed :
      (random app_pubkey : List ℕ) (s : Session mbed)
      → Unkeyed s
      → Keyed (ble_crypto_compute_session_key mbed random app_pubkey s).1
  unfolding ble_crypto_compute_session_key
  compute-Keyed random app_pubkey s h = with_raw-Keyed random s (mbed.base64_decode 32 app_pubkey) h
