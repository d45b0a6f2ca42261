-- ===== src/Client/Events.antt =====
-- sdk/packages/client/src/events.ts: the pool's events in the logs of a transaction.
pub mod Order
use near_shield.Prelude.{
  ℕ, zero, suc, Bool, Option, none, some, List, [], ◌∷◌, ◌++◌, drop, if◌then◌else◌, ℤ, ltb_ℤ,
  Result, ok, err, ◌>>=◌,
}
use near_shield.Js.Text.{Text, codes, starts_with}
use near_shield.Js.Json.{Json, Fields, obj}
use near_shield.Js.Json.Parse.{Doubles, parse}
use near_shield.Js.Json.Access.{find_field, is_text, bigint_of, element, loop_length, record_of}

-- The texts are cast, not checked: any value or undefined may stand for one.
pub record CommitmentEntry : Type 0 where
  pub leaf_index : ℤ
  pub commitment : Option Json

pub record NoteCiphertextEntry : Type 0 where
  pub leaf_index : ℤ
  pub note_ct_hex : Option Json

pub record ParsedShieldedEvents : Type 0 where
  pub commitments : List CommitmentEntry
  pub note_ciphertexts : List NoteCiphertextEntry

-- `sort` is stable.
module _ {A : Type 0} (key : A → ℤ) where
  unfoldable pub insert : A → List A → List A
  insert a [] = a ∷ []
  insert a (b ∷ bs) = if ltb_ℤ (key b) (key a) then b ∷ insert a bs else a ∷ b ∷ bs

  unfoldable pub sort : List A → List A
  sort [] = []
  sort (a ∷ xs) = insert a (sort xs)

abbrev pub no_events : ParsedShieldedEvents
no_events = record { commitments = []; note_ciphertexts = [] }

unfoldable pub strip_prefix : Text → Text
strip_prefix raw = if starts_with raw (codes "EVENT_JSON:") then drop 11 raw else raw

abbrev pub push_entry : ℤ → Option Json → Option Json → ParsedShieldedEvents → ParsedShieldedEvents
push_entry leaf_index commitment note_ct_hex ev = record {
  commitments = ev.commitments ++ record { leaf_index = leaf_index; commitment = commitment } ∷ [];
  note_ciphertexts =
      ev.note_ciphertexts ++ record { leaf_index = leaf_index; note_ct_hex = note_ct_hex } ∷ [];
}

module _ (d : Doubles) where
  unfoldable pub deposit_entry : Fields → ParsedShieldedEvents → Result ParsedShieldedEvents
  deposit_entry fs ev = do
    leaf_index ← bigint_of d (find_field (codes "leaf_index") fs)
    ok (
        push_entry leaf_index (find_field (codes "commitment") fs) (find_field (codes "note_ct") fs)
          ev)

  -- `n` rounds of the loop, from index `i` on.
  unfoldable pub transfer_entries_from :
      Option Json
      → Option Json
      → Option Json
      → ℕ
      → ℕ
      → ParsedShieldedEvents
      → Result ParsedShieldedEvents
  transfer_entries_from leaf_indices comms note_cts i zero ev = ok ev
  transfer_entries_from leaf_indices comms note_cts i (suc n) ev = do
    index ← element leaf_indices i
    leaf_index ← bigint_of d index
    commitment ← element comms i
    note_ct_hex ← element note_cts i
    transfer_entries_from leaf_indices comms note_cts (suc i) n
        (push_entry leaf_index commitment note_ct_hex ev)

  unfoldable pub transfer_entries : Fields → ParsedShieldedEvents → Result ParsedShieldedEvents
  transfer_entries fs ev = do
    let leaf_indices = find_field (codes "leaf_indices") fs
    n ← loop_length d leaf_indices
    transfer_entries_from leaf_indices (find_field (codes "commitments") fs)
        (find_field (codes "note_cts") fs) 0 n ev

  abbrev pub event_entries :
      Option Json → Option Fields → ParsedShieldedEvents → Result ParsedShieldedEvents
  event_entries event none ev = ok ev
  event_entries event (some fs) ev =
      if is_text (codes "deposit") event
      then deposit_entry fs ev
      else if is_text (codes "transfer") event
      then transfer_entries fs ev
      else ok ev

  abbrev pub data_of : Option Json → Option Fields
  data_of none = none
  data_of (some v) = record_of v

  abbrev pub object_entries : Option Fields → ParsedShieldedEvents → Result ParsedShieldedEvents
  object_entries none ev = ok ev
  object_entries (some fs) ev =
      if is_text (codes "shielded-pool") (find_field (codes "standard") fs)
      then event_entries (find_field (codes "event") fs) (data_of (find_field (codes "data") fs)) ev
      else ok ev

  -- `try { parsed = JSON.parse(json); } catch { continue; }` and what follows.
  abbrev pub parsed_entries : Result Json → ParsedShieldedEvents → Result ParsedShieldedEvents
  parsed_entries (err e) ev = ok ev
  parsed_entries (ok v) ev = object_entries (record_of v) ev

  -- The loop over the logs.
  unfoldable pub log_entries : List Text → ParsedShieldedEvents → Result ParsedShieldedEvents
  log_entries [] ev = ok ev
  log_entries (raw ∷ logs) ev = do
    ev ← parsed_entries (parse d (strip_prefix raw)) ev
    log_entries logs ev

  unfoldable pub parse_shielded_events : List Text → Result ParsedShieldedEvents
  parse_shielded_events logs = do
    ev ← log_entries logs no_events
    ok (record {
      commitments = sort (λ (c : CommitmentEntry). c.leaf_index) ev.commitments;
      note_ciphertexts = sort (λ (n : NoteCiphertextEntry). n.leaf_index) ev.note_ciphertexts;
    })
