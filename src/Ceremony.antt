-- ===== src/Ceremony.antt =====
-- ceremony/scripts/manifest.mjs: the transcript of the trusted-setup ceremony. The manifest is the
-- state; a command reads it, may throw, and writes it back. SHA-256 and the clock are arguments.
pub mod Transcript
pub mod Names
use near_shield.Prelude.{
  ℕ, Bool, true, false, not, ◌||◌, Option, none, some, List, [], ◌∷◌, ◌++◌, length, list_eq,
  if◌then◌else◌, ◌==◌, Result, ok, err, ◌>>=◌, ◌>>◌, throw_if, ceremony_usage, ceremony_started,
  ceremony_missing, duplicate_contribution, beacon_set, circuit_missing, not_finalized, vk_mismatch,
  Error,
}
use near_shield.Js.Text.{Text}

pub record Contribution : Type 0 where
  pub name : Text
  pub zkey_sha256 : Text
  pub timestamp : Text

pub record Beacon : Type 0 where
  pub value : Text
  pub source : Text

pub record Final : Type 0 where
  pub zkey_sha256 : Text
  pub vk_json_sha256 : Text
  pub vk_bin_sha256 : Text

pub record CircuitEntry : Type 0 where
  pub contributions : List Contribution
  pub beacon : Option Beacon
  pub final : Option Final

pub record Ptau : Type 0 where
  pub path : Text
  pub sha256 : Text
  pub power : ℕ

-- `circuits` is an object: its keys in the order of their first assignment. No circuit is named like a
-- property of `Object.prototype`.
pub record Manifest : Type 0 where
  pub ptau : Ptau
  pub circuits : List (Text × CircuitEntry)

unfoldable pub find_circuit : List (Text × CircuitEntry) → Text → Option CircuitEntry
find_circuit [] c = none
find_circuit ((d, e) ∷ cs) c = if list_eq d c then some e else find_circuit cs c

unfoldable pub set_circuit :
    List (Text × CircuitEntry) → Text → CircuitEntry → List (Text × CircuitEntry)
set_circuit [] c e = (c, e) ∷ []
set_circuit ((d, f) ∷ cs) c e = if list_eq d c then (d, e) ∷ cs else (d, f) ∷ set_circuit cs c e

abbrev pub no_contributions : CircuitEntry
no_contributions = record { contributions = []; beacon = none; final = none }

-- `manifest.circuits[circuit]`, created where it is missing.
abbrev pub entry_or_new : Option CircuitEntry → CircuitEntry
entry_or_new none = no_contributions
entry_or_new (some e) = e

unfoldable pub entry_of : Manifest → Text → CircuitEntry
entry_of m circuit = entry_or_new (find_circuit m.circuits circuit)

-- `contributions.find(c => c.name === name)`
unfoldable pub has_name : List Contribution → Text → Bool
has_name [] name = false
has_name (c ∷ cs) name = list_eq c.name name || has_name cs name

abbrev pub is_some {ℓ} : {A : Type ℓ} → Option A → Bool
is_some none = false
is_some (some a) = true

-- The file is there or not; a manifest that was read and the statements after it.
abbrev pub read_manifest : Option Manifest → Result Manifest
read_manifest none = err ceremony_missing
read_manifest (some m) = ok m

-- A missing argument is an empty text here: both are falsy.
abbrev pub is_missing : Text → Bool
is_missing t = list_eq t []

abbrev pub no_circuits : Option Manifest → Bool
no_circuits none = true
no_circuits (some m) = length m.circuits == 0

-- The outside world: the SHA-256 of the file at a path, in hex, and the path relative to the output.
pub record Host : Type 0 where
  pub sha256_hex : Text → Result Text
  pub relative_path : Text → Text
  pub power : ℕ

module _ (host : Host) where
  unfoldable pub cmd_init : Text → Option Manifest → Result Manifest
  cmd_init ptau_path file = do
    throw_if (is_missing ptau_path) ceremony_usage
    throw_if (not (no_circuits file)) ceremony_started
    sha256 ← host.sha256_hex ptau_path
    ok (record {
      ptau = record { path = host.relative_path ptau_path; sha256 = sha256; power = host.power };
      circuits = [];
    })

  -- `now` is the clock's ISO text.
  unfoldable pub cmd_add_contribution :
      Text → Text → Text → Text → Option Manifest → Result Manifest
  cmd_add_contribution circuit name zkey_sha256 now file = do
    throw_if (is_missing circuit || is_missing name || is_missing zkey_sha256) ceremony_usage
    m ← read_manifest file
    let entry = entry_of m circuit
    throw_if (has_name entry.contributions name) duplicate_contribution
    let contribution : Contribution = record {
      name = name;
      zkey_sha256 = zkey_sha256;
      timestamp = now;
    }
    ok (record m {
      circuits =
          set_circuit m.circuits circuit
            (record entry { contributions = entry.contributions ++ contribution ∷ [] });
    })

  unfoldable pub cmd_set_beacon : Text → Text → Text → Option Manifest → Result Manifest
  cmd_set_beacon circuit beacon_hex source file = do
    throw_if (is_missing circuit || is_missing beacon_hex || is_missing source) ceremony_usage
    m ← read_manifest file
    let entry = entry_of m circuit
    throw_if (is_some entry.beacon) beacon_set
    let beacon : Beacon = record { value = beacon_hex; source = source }
    ok (record m {
      circuits = set_circuit m.circuits circuit (record entry { beacon = some beacon });
    })

  unfoldable pub cmd_finalize_circuit :
      Text → Text → Text → Text → Option Manifest → Result Manifest
  cmd_finalize_circuit circuit zkey_path vk_json_path vk_bin_path file = do
    throw_if
        (is_missing circuit
          || is_missing zkey_path
          || is_missing vk_json_path
          || is_missing vk_bin_path)
        ceremony_usage
    m ← read_manifest file
    let entry = entry_of m circuit
    zkey ← host.sha256_hex zkey_path
    vk_json ← host.sha256_hex vk_json_path
    vk_bin ← host.sha256_hex vk_bin_path
    let final : Final = record {
      zkey_sha256 = zkey;
      vk_json_sha256 = vk_json;
      vk_bin_sha256 = vk_bin;
    }
    ok (record m {
      circuits = set_circuit m.circuits circuit (record entry { final = some final });
    })

  abbrev pub or_error {ℓ} : {A : Type ℓ} → Error → Option A → Result A
  or_error e none = err e
  or_error e (some a) = ok a

  unfoldable pub cmd_check_circuit : Text → Text → Option Manifest → Result (Unit {0})
  cmd_check_circuit circuit vk_bin_path file = do
    throw_if (is_missing circuit || is_missing vk_bin_path) ceremony_usage
    m ← read_manifest file
    entry ← or_error circuit_missing (find_circuit m.circuits circuit)
    final ← or_error not_finalized entry.final
    throw_if (is_missing final.vk_bin_sha256) not_finalized
    actual ← host.sha256_hex vk_bin_path
    throw_if (not (list_eq actual final.vk_bin_sha256)) vk_mismatch

-- The arguments of a run.
pub data Command : Type 0 where
  init : Text → Command
  add_contribution : Text → Text → Text → Text → Command
  set_beacon : Text → Text → Text → Command
  finalize_circuit : Text → Text → Text → Text → Command
  check_circuit : Text → Text → Command

-- The file after a command, where it succeeded.
abbrev pub written : Result Manifest → Option Manifest → Option Manifest × Result (Unit {0})
written (err e) file = (file, err e)
written (ok m) file = (some m, ok tt)

-- The dispatch. The file holds the manifest that was written last.
unfoldable pub run_command : Host → Command → Option Manifest → Option Manifest × Result (Unit {0})
run_command host (init ptau_path) file = written (cmd_init host ptau_path file) file
run_command host (add_contribution circuit name sha now) file =
    written (cmd_add_contribution host circuit name sha now file) file
run_command host (set_beacon circuit beacon source) file =
    written (cmd_set_beacon host circuit beacon source file) file
run_command host (finalize_circuit circuit zkey json bin) file =
    written (cmd_finalize_circuit host circuit zkey json bin file) file
run_command host (check_circuit circuit bin) file = (file, cmd_check_circuit host circuit bin file)

-- Runs one after the other.
unfoldable pub run_all : Host → List Command → Option Manifest → Option Manifest
run_all host [] file = file
run_all host (c ∷ cs) file = run_all host cs (run_command host c file).0
