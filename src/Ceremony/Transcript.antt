-- ===== src/Ceremony/Transcript.antt =====
-- What the commands of ceremony/scripts/manifest.mjs do to a recorded circuit.
pub mod Growth
use mathlib.Core.List.{append-nil, append_assoc}
use near_shield.Prelude.{
  ◌≡◌, refl, ap, sym, subst, ◌∙◌, true, false, not, ◌||◌, Bool-cases, inl, inr, Option, none, some,
  List, [], ◌∷◌, ◌++◌, length, list_eq, list_eq_iff, Result, ok, err, ok_injective, >>=-eq-ok,
  throw_if, throw_if_true, if◌then◌else◌, arith, ◌==◌, ceremony_usage, ceremony_started,
  duplicate_contribution, beacon_set,
}
use near_shield.Js.Text.{Text}
use near_shield.Ceremony.{
  Contribution, Beacon, CircuitEntry, Ptau, Manifest, find_circuit, set_circuit, entry_or_new,
  entry_of, has_name, is_some, is_missing, Host, cmd_init, cmd_add_contribution, cmd_set_beacon,
  cmd_finalize_circuit, Command, init, add_contribution, set_beacon, finalize_circuit,
  check_circuit, written, run_command, run_all,
}
use Growth.{
  apart, find_circuit-set_circuit, KeepsBeacon, Grows, KeepsFinal-refl, KeepsFinal-some,
  KeepsBeacon-refl, KeepsBeacon-trans, Grows-refl, Grows-trans, Holds, length-find_circuit,
  set_circuit-Holds, unchanged, written-Holds, updated, unset_beacon_lem,
}

module _ (host : Host) where
  init-Holds :
      (m : Manifest) (c p : Text) (e : CircuitEntry) {n : Manifest}
      → find_circuit m.circuits c ≡ some e
      → cmd_init host p (some m) ≡ ok n
      → Holds m.ptau c e (some n)
  unfolding cmd_init
  init-Holds m c p e h g =
      let (_, _, g) = >>=-eq-ok (throw_if (is_missing p) ceremony_usage) _ g in
      let (_, started, _) =
        >>=-eq-ok (throw_if (not (length m.circuits == 0)) ceremony_started) _ g in
      absurd (cc (throw_if_true _ ceremony_started started, length-find_circuit m.circuits c h))

  add_contribution-Holds :
      (m : Manifest) (c x name sha now : Text) (e : CircuitEntry) {n : Manifest}
      → find_circuit m.circuits c ≡ some e
      → cmd_add_contribution host x name sha now (some m) ≡ ok n
      → Holds m.ptau c e (some n)
  unfolding cmd_add_contribution
  add_contribution-Holds m c x name sha now e h g =
      let (_, _, g) =
        >>=-eq-ok (throw_if (is_missing x || is_missing name || is_missing sha) ceremony_usage) _
          g in
      let (_, _, g) =
        >>=-eq-ok (throw_if (has_name (entry_of m x).contributions name) duplicate_contribution) _
          g in
      updated m c x e _ h
        (record {
          added = _;
          contributions = refl;
          beacon = KeepsBeacon-refl (entry_of m x).beacon;
          final = KeepsFinal-refl (entry_of m x).final;
        })
        g

  set_beacon-Holds :
      (m : Manifest) (c x value source : Text) (e : CircuitEntry) {n : Manifest}
      → find_circuit m.circuits c ≡ some e
      → cmd_set_beacon host x value source (some m) ≡ ok n
      → Holds m.ptau c e (some n)
  unfolding cmd_set_beacon
  set_beacon-Holds m c x value source e h g =
      let (_, _, g) =
        >>=-eq-ok (throw_if (is_missing x || is_missing value || is_missing source) ceremony_usage)
          _ g in
      let (_, unset, g) = >>=-eq-ok (throw_if (is_some (entry_of m x).beacon) beacon_set) _ g in
      updated m c x e _ h
        (record {
          added = [];
          contributions = sym (append-nil (entry_of m x).contributions);
          beacon = unset_beacon_lem (entry_of m x).beacon _ (throw_if_true _ beacon_set unset);
          final = KeepsFinal-refl (entry_of m x).final;
        })
        g

  finalize_circuit-Holds :
      (m : Manifest) (c x zkey json bin : Text) (e : CircuitEntry) {n : Manifest}
      → find_circuit m.circuits c ≡ some e
      → cmd_finalize_circuit host x zkey json bin (some m) ≡ ok n
      → Holds m.ptau c e (some n)
  unfolding cmd_finalize_circuit
  finalize_circuit-Holds m c x zkey json bin e h g =
      let (_, _, g) =
        >>=-eq-ok
          (throw_if (is_missing x || is_missing zkey || is_missing json || is_missing bin)
            ceremony_usage)
          _ g in
      let (_, _, g) = >>=-eq-ok (host.sha256_hex zkey) _ g in
      let (_, _, g) = >>=-eq-ok (host.sha256_hex json) _ g in
      let (_, _, g) = >>=-eq-ok (host.sha256_hex bin) _ g in
      updated m c x e _ h
        (record {
          added = [];
          contributions = sym (append-nil (entry_of m x).contributions);
          beacon = KeepsBeacon-refl (entry_of m x).beacon;
          final = KeepsFinal-some (entry_of m x).final _;
        })
        g

  run_command-Holds :
      (m : Manifest) (c : Text) (e : CircuitEntry) (command : Command)
      → find_circuit m.circuits c ≡ some e
      → Holds m.ptau c e (run_command host command (some m)).0
  unfolding run_command
  run_command-Holds m c e (init p) h = written-Holds m c e _ h (λ n g. init-Holds m c p e h g)
  run_command-Holds m c e (add_contribution x name sha now) h =
      written-Holds m c e _ h (λ n g. add_contribution-Holds m c x name sha now e h g)
  run_command-Holds m c e (set_beacon x value source) h =
      written-Holds m c e _ h (λ n g. set_beacon-Holds m c x value source e h g)
  run_command-Holds m c e (finalize_circuit x zkey json bin) h =
      written-Holds m c e _ h (λ n g. finalize_circuit-Holds m c x zkey json bin e h g)
  run_command-Holds m c e (check_circuit x bin) h = unchanged m c e h

  -- One more command keeps what the file holds.
  Holds-run_command :
      (ptau : Ptau) (c : Text) (e : CircuitEntry) (file : Option Manifest) (command : Command)
      → Holds ptau c e file
      → Holds ptau c e (run_command host command file).0
  Holds-run_command ptau c e file command h =
      let next =
        subst
          (λ (f : Option Manifest). Holds h.manifest.ptau c h.entry (run_command host command f).0)
          (sym h.present) (run_command-Holds h.manifest c h.entry command h.recorded) in
      record {
        manifest = next.manifest;
        present = next.present;
        same_ptau = next.same_ptau ∙ h.same_ptau;
        entry = next.entry;
        recorded = next.recorded;
        grown = Grows-trans e h.entry next.entry h.grown next.grown;
      }

  run_all-from :
      (ptau : Ptau) (c : Text) (e : CircuitEntry) (commands : List Command) (file : Option Manifest)
      → Holds ptau c e file
      → Holds ptau c e (run_all host commands file)
  unfolding run_all
  run_all-from ptau c e [] file h = h
  run_all-from ptau c e (x ∷ xs) file h =
      run_all-from ptau c e xs (run_command host x file).0 (Holds-run_command ptau c e file x h)

  -- Once a circuit is in the manifest, no sequence of commands, failed ones included, removes its
  -- entry or changes the phase-1 file: its contributions are still the first ones in their order, a
  -- beacon that was set is still that beacon, and where final hashes were recorded there still are
  -- some, which may be those of a later `finalize-circuit`.
  pub run_all-Holds :
      (m : Manifest) (c : Text) (e : CircuitEntry) (commands : List Command)
      → find_circuit m.circuits c ≡ some e
      → Holds m.ptau c e (run_all host commands (some m))
  run_all-Holds m c e commands h = run_all-from m.ptau c e commands (some m) (unchanged m c e h)
