-- ===== src/Core/Encrypt.antt =====
-- sdk/packages/core/src/encrypt.ts: the sealed box. What the random generator returns (an ephemeral
-- private key, a nonce, a private key) is an argument.
pub mod Utf8
pub mod TextDecoder
pub mod Characters
pub mod WellFormed
pub mod Printed
pub mod Compare
pub mod Seal
use near_shield.Prelude.{
  ℕ, ◌≡◌, ap, ◌+◌, ◌++◌, ◌==◌, not, Bool, Option, none, some, length, ltb, if◌then◌else◌, Result,
  ok, err, ◌>>=◌, ◌>>◌, throw_if, recipient_key_length,
}
use near_shield.Js.Text.{Text, Bytes, codes, subarray}
use near_shield.Core.Packages.{Packages}
use Utf8.{utf8}
use Compare.{bytes_equal}

pub record KeyPair : Type 0 where
  pub public_key : Bytes
  pub private_key : Bytes

abbrev pub seal_context_note : Text
seal_context_note = codes "shielded-pool/note-v1"

abbrev pub seal_context_view : Text
seal_context_view = codes "shielded-pool/view-v1"

-- `try { ... } catch { return null; }`
abbrev pub or_null {ℓ} : {A : Type ℓ} → Result (Option A) → Option A
or_null (ok o) = o
or_null (err e) = none

pub or_null-eq-some {ℓ} :
    {A : Type ℓ} (r : Result (Option A)) {a : A} → or_null r ≡ some a → r ≡ ok (some a)
or_null-eq-some (ok o) h = ap ok h
or_null-eq-some (err e) h = cc

module _ (k : Packages) where
  unfoldable pub generate_key_pair : Bytes → Result KeyPair
  generate_key_pair random = do
    public ← k.get_public_key random
    ok (record { public_key = public; private_key = random })

  -- The cipher key and the key commitment.
  unfoldable pub derive_key_and_commit : Bytes → Bytes → Bytes → Text → Bytes × Bytes
  derive_key_and_commit shared eph_pub recipient_pub context =
      let salt = eph_pub ++ recipient_pub in
      let out = k.hkdf shared salt (utf8 context) 64 in (subarray out 0 32, subarray out 32 64)

  -- Ephemeral key, nonce, recipient key, plaintext, context.
  unfoldable pub seal_to : Bytes → Bytes → Bytes → Bytes → Text → Result Bytes
  seal_to eph_priv nonce recipient_pub plaintext context = do
    throw_if (not (length recipient_pub == 32)) recipient_key_length
    eph_pub ← k.get_public_key eph_priv
    shared ← k.get_shared_secret eph_priv recipient_pub
    let derived = derive_key_and_commit shared eph_pub recipient_pub context
    ct ← k.encrypt derived.0 nonce plaintext
    ok (eph_pub ++ (derived.1 ++ (nonce ++ ct)))

  -- The body of the `try` block.
  unfoldable pub try_open : Bytes → Bytes → Text → Result (Option Bytes)
  try_open recipient_priv sealed context = do
    recipient_pub ← k.get_public_key recipient_priv
    shared ← k.get_shared_secret recipient_priv (subarray sealed 0 32)
    let derived = derive_key_and_commit shared (subarray sealed 0 32) recipient_pub context
    let plain = do
      m ← k.decrypt derived.0 (subarray sealed 64 76) (subarray sealed 76 (length sealed))
      ok (some m)
    if not (bytes_equal derived.1 (subarray sealed 32 64)) then ok none else plain

  unfoldable pub open_sealed : Bytes → Bytes → Text → Option Bytes
  open_sealed recipient_priv sealed context =
      if ltb (length sealed) (32 + 32 + 12 + 16)
      then none
      else or_null (try_open recipient_priv sealed context)
