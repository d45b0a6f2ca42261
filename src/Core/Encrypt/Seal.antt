-- ===== src/Core/Encrypt/Seal.antt =====
-- Opening what was sealed, and what no other opening can do.
use mathlib.Core.List.{append-nil, append_assoc}
use near_shield.Prelude.{
  ℕ, ◌+◌, ◌-◌, ◌≤◌, ◌≡◌, ◌≢◌, refl, arith, ap, sym, ◌∙◌, ◌++◌, true, false, some, length, drop,
  take-append, drop-append, length-append, length-take, length-drop, subst, le→ltb, [], ltb, ok,
  Bool-cases, inl, inr, >>=-eq-ok,
}
use near_shield.Js.Text.{Text, Bytes, subarray}
use near_shield.Core.Packages.{Packages, SealLaws}
use near_shield.Core.Encrypt.Utf8.{utf8}
use near_shield.Core.Encrypt.Compare.{bytes_equal, bytes_equal_iff}
use near_shield.Core.Encrypt.{
  derive_key_and_commit, seal_to, try_open, open_sealed, or_null-eq-some,
}

-- A part of a concatenation of byte strings, by their lengths.
pub subarray_middle :
    (xs ys zs : Bytes) (i j : ℕ)
    → length xs ≡ i
    → i + length ys ≡ j
    → subarray (xs ++ (ys ++ zs)) i j ≡ ys
subarray_middle xs ys zs i j hi hj =
    let e : j - i ≡ length ys = omega arith in rw (e, ← hi, drop-append) (take-append ys zs)

pub subarray_end :
    (xs ys : Bytes) (i j : ℕ) → length xs ≡ i → i + length ys ≡ j → subarray (xs ++ ys) i j ≡ ys
subarray_end xs ys i j hi hj =
    ap (λ t. subarray (xs ++ t) i j) (sym (append-nil ys)) ∙ subarray_middle xs ys [] i j hi hj

-- The parts of a sealed blob.
record IsBlob (sealed eph commit nonce ct : Bytes) : Type 0 where
  pub eph_part : subarray sealed 0 32 ≡ eph
  pub commit_part : subarray sealed 32 64 ≡ commit
  pub nonce_part : subarray sealed 64 76 ≡ nonce
  pub ct_part : subarray sealed 76 (length sealed) ≡ ct
  pub long : 92 ≤ length sealed

length-blob :
    (eph commit nonce ct : Bytes)
    → length (eph ++ (commit ++ (nonce ++ ct)))
      ≡ length eph + length commit + length nonce + length ct
length-blob eph commit nonce ct = omega (
  arith,
  length-append eph (commit ++ (nonce ++ ct)),
  length-append commit (nonce ++ ct),
  length-append nonce ct,
)

IsBlob-append :
    (eph commit nonce ct : Bytes)
    → length eph ≡ 32
    → length commit ≡ 32
    → length nonce ≡ 12
    → 16 ≤ length ct
    → IsBlob (eph ++ (commit ++ (nonce ++ ct))) eph commit nonce ct
IsBlob-append eph commit nonce ct he hc hn ht = record {
  eph_part = subarray_middle [] eph (commit ++ (nonce ++ ct)) 0 32 refl (omega arith);
  commit_part = subarray_middle eph commit (nonce ++ ct) 32 64 he (omega arith);
  nonce_part = rw (← append_assoc eph commit (nonce ++ ct)) (
      subarray_middle (eph ++ commit) nonce ct 64 76 (omega (arith, length-append eph commit))
        (omega arith));
  ct_part = ct_lem;
  long = omega (arith, length-blob eph commit nonce ct);
}
  where
    ct_lem :
        subarray (eph ++ (commit ++ (nonce ++ ct))) 76 (length (eph ++ (commit ++ (nonce ++ ct))))
        ≡ ct
    ct_lem =
        ap (λ t. subarray t 76 (length (eph ++ (commit ++ (nonce ++ ct)))))
          (sym (append_assoc eph commit (nonce ++ ct))
            ∙ sym (append_assoc (eph ++ commit) nonce ct))
        ∙ subarray_end ((eph ++ commit) ++ nonce) ct 76 (length (eph ++ (commit ++ (nonce ++ ct))))
            (omega (arith, length-append (eph ++ commit) nonce, length-append eph commit))
            (omega (arith, length-blob eph commit nonce ct))

module _ (k : Packages) where
  -- Opening a blob of the right shape is decryption under the derived key.
  try_open-IsBlob :
      (priv recipient shared sealed eph nonce ct m : Bytes) (context : Text)
      → k.get_public_key priv ≡ ok recipient
      → k.get_shared_secret priv eph ≡ ok shared
      → IsBlob sealed eph (derive_key_and_commit k shared eph recipient context).1 nonce ct
      → k.decrypt (derive_key_and_commit k shared eph recipient context).0 nonce ct ≡ ok m
      → try_open k priv sealed context ≡ ok (some m)
  unfolding try_open
  try_open-IsBlob priv recipient shared sealed eph nonce ct m context hp hs b hd =
      rw (
        hp,
        b.eph_part,
        hs,
        b.commit_part,
        b.nonce_part,
        b.ct_part,
        (bytes_equal_iff _ _).1 refl,
        hd,
      )

  -- What a successful `sealTo` has computed.
  seal_to-eq-ok :
      (recipient eph_priv nonce m : Bytes) (context : Text) {sealed : Bytes}
      → seal_to k eph_priv nonce recipient m context ≡ ok sealed
      → (eph : Bytes) × (shared : Bytes) × (ct : Bytes) × (k.get_public_key eph_priv ≡ ok eph)
        × (k.get_shared_secret eph_priv recipient ≡ ok shared)
        × (k.encrypt (derive_key_and_commit k shared eph recipient context).0 nonce m ≡ ok ct)
        × (sealed
            ≡ eph ++ ((derive_key_and_commit k shared eph recipient context).1 ++ (nonce ++ ct)))
  unfolding seal_to
  seal_to-eq-ok recipient eph_priv nonce m context h = ground arith

  length-commit :
      SealLaws k
      → (shared eph recipient : Bytes) (context : Text)
      → length (derive_key_and_commit k shared eph recipient context).1 ≡ 32
  unfolding derive_key_and_commit
  length-commit laws shared eph recipient context = omega (
    arith,
    length-take 32 (drop 32 (k.hkdf shared (eph ++ recipient) (utf8 context) 64)),
    length-drop 32 (k.hkdf shared (eph ++ recipient) (utf8 context) 64),
    laws.hkdf_length shared (eph ++ recipient) (utf8 context) 64,
  )

  -- What was sealed for a key is opened by its private key, in the same context.
  pub open_sealed-seal_to :
      SealLaws k
      → (priv recipient eph_priv nonce m : Bytes) (context : Text) {sealed : Bytes}
      → k.get_public_key priv ≡ ok recipient
      → length nonce ≡ 12
      → seal_to k eph_priv nonce recipient m context ≡ ok sealed
      → open_sealed k priv sealed context ≡ some m
  unfolding open_sealed
  open_sealed-seal_to laws priv recipient eph_priv nonce m context {sealed} hp hn h =
      let (eph, shared, ct, he, hs, hc, e) = seal_to-eq-ok recipient eph_priv nonce m context h in
      let blob : IsBlob sealed eph (derive_key_and_commit k shared eph recipient context).1 nonce
          ct =
        subst (λ t. IsBlob t eph (derive_key_and_commit k shared eph recipient context).1 nonce ct)
          (sym e)
          (IsBlob-append eph _ nonce ct (laws.public_key_length eph_priv he)
            (length-commit laws shared eph recipient context) hn
            (omega (arith, laws.encrypt_length _ nonce m hc))) in
      let long : ltb (length sealed) 92 ≡ false = le→ltb (length sealed) 92 blob.long in
      rw (
        long,
        try_open-IsBlob priv recipient shared sealed eph nonce ct m context hp
            (laws.agreement priv eph_priv hp he ∙ hs) blob (laws.decrypt-encrypt _ nonce m hc),
      )

  -- Two different `info` labels for which HKDF gives one key commitment.
  pub record HkdfCollision : Type 0 where
    pub ikm : Bytes
    pub salt : Bytes
    pub info : Bytes
    pub ikm' : Bytes
    pub salt' : Bytes
    pub info' : Bytes
    pub same :
        subarray (k.hkdf ikm salt info 64) 32 64 ≡ subarray (k.hkdf ikm' salt' info' 64) 32 64
    pub differ : info ≢ info'

  -- What a successful opening has found.
  abbrev Opened : Bytes → Bytes → Text → Type 0
  Opened priv sealed context =
      (recipient : Bytes) × (shared : Bytes) × (bytes_equal
          (derive_key_and_commit k shared (subarray sealed 0 32) recipient context).1
          (subarray sealed 32 64)
        ≡ true)

  try_open-eq-some :
      (priv sealed : Bytes) (context : Text) {m : Bytes}
      → try_open k priv sealed context ≡ ok (some m)
      → Opened priv sealed context
  unfolding try_open
  try_open-eq-some priv sealed context h =
      let (recipient, hp, h1) = >>=-eq-ok (k.get_public_key priv) _ h in
      let (shared, hs, h2) = >>=-eq-ok (k.get_shared_secret priv (subarray sealed 0 32)) _ h1 in
      let derived = derive_key_and_commit k shared (subarray sealed 0 32) recipient context in
      elim (Bool-cases (bytes_equal derived.1 (subarray sealed 32 64))) [
        | inl e ↦ (recipient, shared, e)
        | inr e ↦ absurd (cc (rw e at h2))
      ]

  open_sealed-eq-some :
      (priv sealed : Bytes) (context : Text) {m : Bytes}
      → open_sealed k priv sealed context ≡ some m
      → Opened priv sealed context
  unfolding open_sealed
  open_sealed-eq-some priv sealed context h = elim (Bool-cases (ltb (length sealed) 92)) [
    | inl short ↦ absurd (cc (rw short at h))
    | inr long ↦ try_open-eq-some priv sealed context (or_null-eq-some _ (rw long at h))
  ]

  -- One blob opened in two contexts, by whatever keys, is a collision of HKDF.
  pub open_sealed_separation :
      (priv priv' sealed : Bytes) (context context' : Text) {m m' : Bytes}
      → utf8 context ≢ utf8 context'
      → open_sealed k priv sealed context ≡ some m
      → open_sealed k priv' sealed context' ≡ some m'
      → HkdfCollision
  unfolding derive_key_and_commit
  open_sealed_separation priv priv' sealed context context' differ h h' =
      let (recipient, shared, e) = open_sealed-eq-some priv sealed context h in
      let (recipient', shared', e') = open_sealed-eq-some priv' sealed context' h' in
      record {
        ikm = shared;
        salt = subarray sealed 0 32 ++ recipient;
        info = utf8 context;
        ikm' = shared';
        salt' = subarray sealed 0 32 ++ recipient';
        info' = utf8 context';
        same = (bytes_equal_iff _ _).0 e ∙ sym ((bytes_equal_iff _ _).0 e');
        differ = differ;
      }
