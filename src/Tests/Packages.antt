-- ===== src/Tests/Packages.antt =====
-- Concrete packages that meet the documented laws, to run the model on.
use near_shield.Prelude.{
  ℕ, ◌+◌, ◌-◌, ◌*◌, ◌≡◌, arith, ap, ◌∙◌, [], ◌∷◌, ◌++◌, length, replicate, take, length-append,
  take-append, length-replicate, ap₂, ◌==◌, if◌then◌else◌, Result, ok, err, thrown, syntax_error,
  Bool-cases, inl, inr,
}
use near_shield.Js.Text.{Bytes}
use near_shield.Js.Json.Parse.{Doubles}
use near_shield.Core.Packages.{Packages, SealLaws}

abbrev pub sum : Bytes → ℕ
sum [] = 0
sum (x ∷ xs) = x + sum xs

abbrev pub toy_public_key : Bytes → Result Bytes
toy_public_key a = if length a == 32 then ok a else err thrown

abbrev pub toy : Packages
toy = record {
  hash2 = λ a b. a * 3 + b * 5 + 1;
  hash4 = λ a b c d. a * 3 + b * 5 + c * 7 + d * 11 + 1;
  keccak_256 = λ b. replicate 32 (sum b);
  get_public_key = toy_public_key;
  get_shared_secret = λ a b. ok (replicate 32 (sum a + sum b));
  hkdf = λ ikm salt info n. replicate n 7;
  encrypt = λ key nonce m. ok (m ++ replicate 16 0);
  decrypt = λ key nonce c. ok (take (length c - 16) c);
}

toy_public_key_value : (a : Bytes) {p : Bytes} → toy_public_key a ≡ ok p → (length a ≡ 32) × (p ≡ a)
toy_public_key_value a h = elim (Bool-cases (length a == 32)) [
  | inl e ↦ (ground arith, cc (rw e at h))
  | inr e ↦ absurd (cc (rw e at h))
]

toy_agreement :
    (a b : Bytes) {p q : Bytes}
    → toy_public_key a ≡ ok p
    → toy_public_key b ≡ ok q
    → toy.get_shared_secret a q ≡ toy.get_shared_secret b p
toy_agreement a b {p} {q} hp hq =
    let ep = (toy_public_key_value a hp).1 in
    let eq = (toy_public_key_value b hq).1 in
    let e : sum a + sum q ≡ sum b + sum p = omega (arith, ap sum ep, ap sum eq) in
    ap (λ (n : ℕ). ok (replicate 32 n)) e

toy_encrypt_length :
    (key nonce m : Bytes) {c : Bytes} → toy.encrypt key nonce m ≡ ok c → length c ≡ length m + 16
toy_encrypt_length key nonce m {c} h =
    let e : c ≡ m ++ replicate 16 0 = cc in ap length e ∙ length-append m (replicate 16 0)

toy_decrypt-encrypt :
    (key nonce m : Bytes) {c : Bytes}
    → toy.encrypt key nonce m ≡ ok c
    → toy.decrypt key nonce c ≡ ok m
toy_decrypt-encrypt key nonce m {c} h =
    let e : c ≡ m ++ replicate 16 0 = cc in
    let n : length c - 16 ≡ length m = omega (arith, toy_encrypt_length key nonce m h) in
    ap ok (ap₂ take n e ∙ take-append m (replicate 16 0))

pub toy-SealLaws : SealLaws toy
toy-SealLaws = record {
  public_key_length = λ a h. let (n, e) = toy_public_key_value a h in ap length e ∙ n;
  agreement = λ a b hp hq. toy_agreement a b hp hq;
  hkdf_length = λ ikm salt info n. length-replicate n 7;
  encrypt_length = λ key nonce m h. toy_encrypt_length key nonce m h;
  decrypt-encrypt = λ key nonce m h. toy_decrypt-encrypt key nonce m h;
}

abbrev pub toy_doubles : Doubles
toy_doubles = record { print = λ t. t; integer = λ t. err syntax_error; rounds = λ v. 0 }
