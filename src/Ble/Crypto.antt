-- ===== src/Ble/Crypto.antt =====
-- main/crypto/ble_crypto.c: the key that is agreed on with the phone
-- mbedTLS is a parameter, and so are the random bytes. What its calls do to an array when they fail
-- is left out, but for `base64_rest`.
pub mod Handshake
use cat_litter_box.Common.{
  ℕ, Bool, true, false, Option, none, some, List, [], ◌∷◌, length, ◌==◌, ◌&&◌, if◌then◌else◌,
}

pub record MbedTls : Type 1 where
  pub Ecdh : Type 0
  -- `mbedtls_ecdh_init`; and `mbedtls_ecdh_setup` with Curve25519
  pub ecdh_init : Ecdh
  pub ecdh_setup : Ecdh → Option Ecdh
  -- the bytes written and the new state, made with random bytes
  pub ecdh_make_public : List ℕ → Ecdh → Option (List ℕ × Ecdh)
  pub ecdh_read_public : List ℕ → Ecdh → Option Ecdh
  pub ecdh_calc_secret : List ℕ → Ecdh → Option (List ℕ)
  -- `mbedtls_hkdf` with SHA-256, for 32 bytes
  pub hkdf : List ℕ → Option (List ℕ)
  -- with the size of the output
  pub base64_encode : ℕ → List ℕ → Option (List ℕ)
  pub base64_decode : ℕ → List ℕ → Option (List ℕ)
  -- what the output is taken to be where the text does not decode and the caller does not ask
  pub base64_rest : ℕ → List ℕ → List ℕ
  -- with the key and the nonce: the ciphertext and the tag; and, given these, the plaintext
  pub gcm_crypt_and_tag : List ℕ → List ℕ → List ℕ → Option (List ℕ × List ℕ)
  pub gcm_auth_decrypt : List ℕ → List ℕ → List ℕ → List ℕ → Option (List ℕ)

abbrev pub zero_key : List ℕ
zero_key =
    0 ∷ 0 ∷ 0 ∷ 0 ∷ 0 ∷ 0 ∷ 0 ∷ 0 ∷ 0 ∷ 0 ∷ 0 ∷ 0 ∷ 0 ∷ 0 ∷ 0 ∷ 0 ∷ 0 ∷ 0 ∷ 0 ∷ 0 ∷ 0 ∷ 0 ∷ 0 ∷ 0
    ∷ 0 ∷ 0 ∷ 0 ∷ 0 ∷ 0 ∷ 0 ∷ 0 ∷ 0 ∷ []

-- Without the length in front, if there is one
abbrev pub raw_pubkey : List ℕ → Option (List ℕ)
raw_pubkey [] = none
raw_pubkey (x ∷ xs) =
    if (length (x ∷ xs) == 33) && (x == 32)
    then some xs
    else if length (x ∷ xs) == 32
    then some (x ∷ xs)
    else none

module _ (mbed : MbedTls) where
  open mbed use {
    Ecdh, ecdh_init, ecdh_setup, ecdh_make_public, ecdh_read_public, ecdh_calc_secret, hkdf,
    base64_encode, base64_decode, gcm_crypt_and_tag, gcm_auth_decrypt,
  }

  pub record Session : Type 0 where
    pub ecdh : Ecdh
    pub session_key : List ℕ
    pub is_encrypted : Bool

  abbrev pub new_session : Session
  new_session = record { ecdh = ecdh_init; session_key = zero_key; is_encrypted = false }

  abbrev pub encode_pubkey : ℕ → Option (List ℕ) → Option (List ℕ)
  encode_pubkey max_len none = none
  encode_pubkey max_len (some raw) = base64_encode max_len raw

  abbrev pub made_public : ℕ → Session → Option (List ℕ × Ecdh) → Option (List ℕ) × Session
  made_public max_len s none = (none, s)
  made_public max_len s (some (tls_pubkey, ecdh)) =
      (encode_pubkey max_len (raw_pubkey tls_pubkey), record s { ecdh = ecdh })

  abbrev pub set_up : List ℕ → ℕ → Session → Option Ecdh → Option (List ℕ) × Session
  set_up random max_len s none = (none, s)
  set_up random max_len s (some ecdh) =
      made_public max_len (record s { ecdh = ecdh }) (ecdh_make_public random ecdh)

  -- The session before it is forgotten. The result is the device's public key.
  unfoldable pub ble_crypto_init_and_get_pubkey : List ℕ → ℕ → Session → Option (List ℕ) × Session
  ble_crypto_init_and_get_pubkey random max_len s =
      set_up random max_len new_session (ecdh_setup ecdh_init)

  abbrev pub derive : Session → Option (List ℕ) → Bool × Session
  derive s none = (false, s)
  derive s (some key) =
      (true, record s { session_key = key; is_encrypted = true; ecdh = ecdh_init })

  abbrev pub with_secret : Session → Option (List ℕ) → Bool × Session
  with_secret s none = (false, s)
  with_secret s (some shared_secret) =
      if length shared_secret == 32 then derive s (hkdf shared_secret) else (false, s)

  abbrev pub with_public : List ℕ → Session → Option Ecdh → Bool × Session
  with_public random s none = (false, s)
  with_public random s (some ecdh) =
      with_secret (record s { ecdh = ecdh }) (ecdh_calc_secret random ecdh)

  abbrev pub with_raw : List ℕ → Session → Option (List ℕ) → Bool × Session
  with_raw random s none = (false, s)
  with_raw random s (some raw) =
      if length raw == 32
      then with_public random s (ecdh_read_public (32 ∷ raw) s.ecdh)
      else (false, s)

  -- Whether it succeeds
  unfoldable pub ble_crypto_compute_session_key : List ℕ → List ℕ → Session → Bool × Session
  ble_crypto_compute_session_key random app_pubkey s =
      with_raw random s (base64_decode 32 app_pubkey)

  unfoldable pub ble_crypto_encrypt : List ℕ → List ℕ → Session → Option (List ℕ × List ℕ)
  ble_crypto_encrypt iv plaintext s =
      if s.is_encrypted then gcm_crypt_and_tag s.session_key iv plaintext else none

  unfoldable pub ble_crypto_decrypt : List ℕ → List ℕ → List ℕ → Session → Option (List ℕ)
  ble_crypto_decrypt ciphertext iv tag s =
      if s.is_encrypted then gcm_auth_decrypt s.session_key iv tag ciphertext else none
