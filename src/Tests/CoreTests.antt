-- ===== src/Tests/CoreTests.antt =====
-- Fields, hashes, notes and the sealed box, at concrete inputs.
use near_shield.Prelude.{
  ℕ, ◌+◌, ◌%◌, ◌≡◌, ◌≢◌, refl, arith, ap, ◌⊎◌, ◌↔◌, true, [], ◌∷◌, ◌++◌, replicate, get_or, pos,
  negsuc, some, ok,
}
use near_shield.Js.Text.{Bytes}
use near_shield.Core.Field.{Field, bn254_modulus, new_field, from_hex, to_hex, IsReduced}
use near_shield.Core.Field.Laws
use near_shield.Core.Field.Wire
use near_shield.Core.Poseidon.{poseidon2, Collides2, Collides4}
use near_shield.Core.HashBytes.Chunks.{chunks_of}
use near_shield.Core.HashBytes.Laws.{ChunksCollide}
use near_shield.Core.HashBytes.Laws as HashLaws
use near_shield.Core.Note.{Note}
use near_shield.Core.Note.Binding
use near_shield.Core.Encrypt.{
  seal_to, open_sealed, try_open, derive_key_and_commit, seal_context_note, seal_context_view,
}
use near_shield.Core.Encrypt.Compare.{bytes_equal, bytes_equal_iff, diff_from}
use near_shield.Core.Encrypt.Utf8.{utf8, encode_unit, encode_point, is_high, is_low}
use near_shield.Core.Encrypt.Seal
use near_shield.Core.Encrypt.Seal.{HkdfCollision}
use near_shield.Tests.Packages.{toy, toy-SealLaws}

new_field_lem_example :
    IsReduced (new_field (negsuc 4))
    × (((new_field (negsuc 4)).value + 5) % bn254_modulus ≡ 0 % bn254_modulus)
new_field_lem_example = Laws.new_field_lem (negsuc 4)

abbrev seven : Field
seven = record { value = 7 }

from_hex-to_hex_example : from_hex (to_hex seven) ≡ ok seven
from_hex-to_hex_example = Wire.from_hex-to_hex seven (omega arith)

abbrev key_bytes : Bytes
key_bytes = replicate 32 200

hash_bytes_to_field-binding_example :
    (key_bytes ≡ key_bytes) ⊎ ChunksCollide toy (chunks_of 32 key_bytes) (chunks_of 32 key_bytes)
hash_bytes_to_field-binding_example =
    HashLaws.hash_bytes_to_field-binding toy key_bytes key_bytes (omega arith) (omega arith) refl
      refl

abbrev note : Note
note = record { amount = pos 60; owner_pubkey = seven; auditor_pubkey = seven; blinding = seven }

commit_note-binding_example :
    ((new_field note.amount ≡ new_field note.amount)
      × (seven ≡ seven)
      × (seven ≡ seven)
      × (seven ≡ seven))
    ⊎ Collides4 toy
        (new_field (pos 60), seven, seven, seven)
        (new_field (pos 60), seven, seven, seven)
commit_note-binding_example = Binding.commit_note-binding toy note note refl

compute_nullifier-binding_example :
    ((seven ≡ seven) × (seven ≡ seven) × (◌≡◌ {A = ℕ} 3 3))
    ⊎ (Collides2 toy (seven, new_field (pos 3)) (seven, new_field (pos 3))
        ⊎ Collides2 toy
            (seven, poseidon2 toy seven (new_field (pos 3)))
            (seven, poseidon2 toy seven (new_field (pos 3))))
compute_nullifier-binding_example =
    Binding.compute_nullifier-binding toy seven seven seven seven 3 3 (omega arith) (omega arith)
      refl

bytes_equal_iff_example :
    (bytes_equal key_bytes (replicate 31 200) ≡ true) ↔ (key_bytes ≡ replicate 31 200)
bytes_equal_iff_example = bytes_equal_iff key_bytes (replicate 31 200)

abbrev eph_bytes : Bytes
eph_bytes = replicate 32 9

abbrev nonce : Bytes
nonce = replicate 12 1

abbrev message : Bytes
message = 1 ∷ 2 ∷ 3 ∷ []

abbrev sealed : Bytes
sealed = eph_bytes ++ (replicate 32 7 ++ (nonce ++ (message ++ replicate 16 0)))

sealed_lem : seal_to toy eph_bytes nonce key_bytes message seal_context_note ≡ ok sealed
unfolding seal_to derive_key_and_commit utf8 encode_unit encode_point is_high is_low
sealed_lem = refl

open_sealed-seal_to_example : open_sealed toy key_bytes sealed seal_context_note ≡ some message
open_sealed-seal_to_example =
    Seal.open_sealed-seal_to toy toy-SealLaws key_bytes key_bytes eph_bytes nonce message
      seal_context_note refl refl sealed_lem

-- The labels of the two kinds of ciphertext are different bytes.
contexts_differ : utf8 seal_context_note ≢ utf8 seal_context_view
unfolding utf8 encode_unit encode_point is_high is_low
contexts_differ e = let f : ◌≡◌ {A = ℕ} 110 118 = ap (λ t. get_or t 14 0) e in absurd (omega arith)

opened_as_view : open_sealed toy key_bytes sealed seal_context_view ≡ some message
unfolding open_sealed try_open derive_key_and_commit utf8 encode_unit encode_point is_high is_low
    bytes_equal diff_from
opened_as_view = refl

-- With a constant HKDF the contexts do collide.
open_sealed_separation_example : HkdfCollision toy
open_sealed_separation_example =
    Seal.open_sealed_separation toy key_bytes key_bytes sealed seal_context_note seal_context_view
      contexts_differ open_sealed-seal_to_example opened_as_view
