-- ===== src/Tests/CeremonyTests.antt =====
-- The ceremony's commands, run on a small transcript.
use near_shield.Prelude.{◌≡◌, refl, List, [], ◌∷◌, none, some, list_eq, ok}
use near_shield.Js.Text.{codes}
use near_shield.Ceremony.{
  Command, init, add_contribution, set_beacon, finalize_circuit, Host, Manifest, CircuitEntry,
  find_circuit, run_all,
}
use near_shield.Ceremony.Transcript
use near_shield.Ceremony.Transcript.Growth.{Holds}
use near_shield.Ceremony.Names
use near_shield.Ceremony.Names.{FileIsProper}

abbrev host : Host
host = record { sha256_hex = λ p. ok p; relative_path = λ p. p; power = 15 }

abbrev recorded : CircuitEntry
recorded = record {
  contributions =
      record { name = codes "ann"; zkey_sha256 = codes "a1"; timestamp = codes "t0" } ∷ [];
  beacon = some (record { value = codes "ff"; source = codes "drand" });
  final = none;
}

abbrev started : Manifest
started = record {
  ptau = record { path = codes "pot"; sha256 = codes "pot"; power = 15 };
  circuits = (codes "deposit", recorded) ∷ [];
}

abbrev commands : List Command
commands =
    init (codes "other")
    ∷ add_contribution (codes "deposit") (codes "bob") (codes "b2") (codes "t1")
    ∷ add_contribution (codes "deposit") (codes "ann") (codes "c3") (codes "t2")
    ∷ set_beacon (codes "deposit") (codes "00") (codes "dice")
    ∷ finalize_circuit (codes "withdraw") (codes "z") (codes "j") (codes "b")
    ∷ []

found_deposit : find_circuit started.circuits (codes "deposit") ≡ some recorded
unfolding find_circuit list_eq
found_deposit = refl

run_all-Holds_example :
    Holds started.ptau (codes "deposit") recorded (run_all host commands (some started))
run_all-Holds_example =
    Transcript.run_all-Holds host started (codes "deposit") recorded commands found_deposit

run_all-IsProper_example : FileIsProper (run_all host (init (codes "pot") ∷ commands) none)
run_all-IsProper_example = Names.run_all-IsProper host (init (codes "pot") ∷ commands)
