-- ===== src/Core/Packages.antt =====
-- The third-party packages that the SDK calls, as parameters: poseidon-lite, @noble/hashes,
-- @noble/curves and @noble/ciphers. A call that may throw returns a `Result`.
use near_shield.Prelude.{ℕ, ◌+◌, ◌≡◌, length, Result, ok}
use near_shield.Js.Text.{Bytes}

pub record Packages : Type 0 where
  -- poseidon-lite, on the values of the inputs
  pub hash2 : ℕ → ℕ → ℕ
  pub hash4 : ℕ → ℕ → ℕ → ℕ → ℕ
  pub keccak_256 : Bytes → Bytes
  -- x25519.getPublicKey(priv), x25519.getSharedSecret(priv, pub)
  pub get_public_key : Bytes → Result Bytes
  pub get_shared_secret : Bytes → Bytes → Result Bytes
  -- hkdf(sha256, ikm, salt, info, length)
  pub hkdf : Bytes → Bytes → Bytes → ℕ → Bytes
  -- chacha20poly1305(key, nonce).encrypt(m) and .decrypt(c)
  pub encrypt : Bytes → Bytes → Bytes → Result Bytes
  pub decrypt : Bytes → Bytes → Bytes → Result Bytes

-- What the documentation of these packages promises about key agreement and the cipher.
pub record SealLaws (k : Packages) : Type 0 where
  pub public_key_length : (a : Bytes) {p : Bytes} → k.get_public_key a ≡ ok p → length p ≡ 32
  pub agreement :
      (a b : Bytes) {p q : Bytes}
      → k.get_public_key a ≡ ok p
      → k.get_public_key b ≡ ok q
      → k.get_shared_secret a q ≡ k.get_shared_secret b p
  pub hkdf_length : (ikm salt info : Bytes) (n : ℕ) → length (k.hkdf ikm salt info n) ≡ n
  pub encrypt_length :
      (key nonce m : Bytes) {c : Bytes} → k.encrypt key nonce m ≡ ok c → length c ≡ length m + 16
  pub decrypt-encrypt :
      (key nonce m : Bytes) {c : Bytes}
      → k.encrypt key nonce m ≡ ok c
      → k.decrypt key nonce c ≡ ok m
