-- ===== src/Ceremony/Names.antt =====
-- The names of contributions and the check of a finalised circuit, of ceremony/scripts/manifest.mjs.
use near_shield.Prelude.{
  ◌≡◌, refl, ap, sym, subst, ◌∙◌, Bool, false, not, ◌||◌, Bool-cases, inl, inr, Option, none, some,
  List, [], ◌∷◌, ◌++◌, All, list_eq, list_eq_iff, list_eq_refl, Result, ok, err, ok_injective,
  >>=-eq-ok, throw_if, throw_if_true, arith, ceremony_usage, ceremony_started,
  duplicate_contribution, beacon_set,
}
use near_shield.Js.Text.{Text}
use near_shield.Ceremony.{
  Contribution, Final, CircuitEntry, Manifest, find_circuit, set_circuit, entry_or_new, entry_of,
  has_name, is_some, is_missing, no_circuits, read_manifest, Host, cmd_init, cmd_add_contribution,
  cmd_set_beacon, cmd_finalize_circuit, cmd_check_circuit, Command, init, add_contribution,
  set_beacon, finalize_circuit, check_circuit, written, run_command, run_all,
}
use near_shield.Ceremony.Transcript.Growth.{find_circuit-set_circuit}

abbrev pub NamesDiffer : List Contribution → Type 0
NamesDiffer [] = Unit
NamesDiffer (c ∷ cs) = (has_name cs c.name ≡ false) × NamesDiffer cs

-- No name twice in any circuit.
abbrev pub IsProper : Manifest → Type 0
IsProper m = All (λ c. NamesDiffer c.1.contributions) m.circuits

abbrev pub FileIsProper : Option Manifest → Type 0
FileIsProper none = Unit
FileIsProper (some m) = IsProper m

name_sym : (s t : Text) → list_eq s t ≡ false → list_eq t s ≡ false
name_sym s t h = elim (Bool-cases (list_eq t s)) [
  | inl same ↦ absurd (cc ((list_eq_iff s t).1 (sym ((list_eq_iff t s).0 same)), h))
  | inr other ↦ other
]

has_name-append :
    (cs : List Contribution) (c : Contribution) (name : Text)
    → has_name (cs ++ c ∷ []) name ≡ (has_name cs name || list_eq c.name name)
unfolding has_name
has_name-append [] c name = ground arith
has_name-append (x ∷ cs) c name = ground (arith, has_name-append cs c name)

NamesDiffer-append :
    (cs : List Contribution) (c : Contribution)
    → has_name cs c.name ≡ false
    → NamesDiffer cs
    → NamesDiffer (cs ++ c ∷ [])
unfolding has_name
NamesDiffer-append [] c h g = (refl, tt)
NamesDiffer-append (x ∷ cs) c h g = elim (Bool-cases (list_eq x.name c.name)) [
  | inl same ↦ absurd (cc (rw same at h))
  | inr other ↦ (
    rw (has_name-append cs c x.name, g.0, name_sym x.name c.name other) refl,
    NamesDiffer-append cs c (rw other at h) g.1,
  )
]

set_circuit-All :
    (cs : List (Text × CircuitEntry)) (c : Text) (e : CircuitEntry)
    → NamesDiffer e.contributions
    → All (λ c. NamesDiffer c.1.contributions) cs
    → All (λ c. NamesDiffer c.1.contributions) (set_circuit cs c e)
unfolding set_circuit
set_circuit-All [] c e h g = (h, tt)
set_circuit-All ((d, f) ∷ cs) c e h g = elim (Bool-cases (list_eq d c)) [
  | inl same ↦ rw same (h, g.1)
  | inr other ↦ rw other (g.0, set_circuit-All cs c e h g.1)
]

entry-NamesDiffer :
    (cs : List (Text × CircuitEntry)) (c : Text)
    → All (λ c. NamesDiffer c.1.contributions) cs
    → NamesDiffer (entry_or_new (find_circuit cs c)).contributions
unfolding find_circuit
entry-NamesDiffer [] c h = tt
entry-NamesDiffer ((d, f) ∷ cs) c h = elim (Bool-cases (list_eq d c)) [
  | inl same ↦ rw same h.0
  | inr other ↦ rw other (entry-NamesDiffer cs c h.1)
]

written-IsProper :
    (file : Option Manifest) (r : Result Manifest)
    → FileIsProper file
    → ((n : Manifest) → r ≡ ok n → IsProper n)
    → FileIsProper (written r file).0
written-IsProper file (err x) h g = h
written-IsProper file (ok n) h g = g n refl

read-IsProper :
    (file : Option Manifest) {m : Manifest}
    → FileIsProper file
    → read_manifest file ≡ ok m
    → IsProper m
read-IsProper none h g = absurd (cc g)
read-IsProper (some m) h g = subst IsProper (ok_injective g) h

updated_names :
    (m : Manifest) (x : Text) (f : CircuitEntry) {n : Manifest}
    → IsProper m
    → NamesDiffer f.contributions
    → ok (record m { circuits = set_circuit m.circuits x f }) ≡ ok n
    → IsProper n
updated_names m x f h g same =
    subst IsProper (ok_injective same) (set_circuit-All m.circuits x f g h)

two_of_four : (a b c d : Bool) → (a || b || c || d) ≡ false → (a || d) ≡ false
two_of_four a b c d h = ground arith

module _ (host : Host) where
  run_command-IsProper :
      (file : Option Manifest) (command : Command)
      → FileIsProper file
      → FileIsProper (run_command host command file).0
  unfolding run_command cmd_init cmd_add_contribution cmd_set_beacon cmd_finalize_circuit entry_of
  run_command-IsProper file (init p) h = written-IsProper file (cmd_init host p file) h (λ n g.
      let (_, _, g) = >>=-eq-ok (throw_if (is_missing p) ceremony_usage) _ g in
      let (_, _, g) = >>=-eq-ok (throw_if (not (no_circuits file)) ceremony_started) _ g in
      let (_, _, g) = >>=-eq-ok (host.sha256_hex p) _ g in subst IsProper (ok_injective g) tt)
  run_command-IsProper file (add_contribution x name sha now) h =
      written-IsProper file (cmd_add_contribution host x name sha now file) h (λ n g.
        let (_, _, g) =
          >>=-eq-ok (throw_if (is_missing x || is_missing name || is_missing sha) ceremony_usage) _
            g in
        let (m, r, g) = >>=-eq-ok (read_manifest file) _ g in
        let p = read-IsProper file h r in
        let old = entry-NamesDiffer m.circuits x p in
        let (_, fresh, g) =
          >>=-eq-ok (throw_if (has_name (entry_of m x).contributions name) duplicate_contribution) _
            g in
        updated_names m x _ p
          (NamesDiffer-append _ _ (throw_if_true _ duplicate_contribution fresh) old) g)
  run_command-IsProper file (set_beacon x value source) h =
      written-IsProper file (cmd_set_beacon host x value source file) h (λ n g.
        let (_, _, g) =
          >>=-eq-ok
            (throw_if (is_missing x || is_missing value || is_missing source) ceremony_usage) _ g in
        let (m, r, g) = >>=-eq-ok (read_manifest file) _ g in
        let p = read-IsProper file h r in
        let (_, _, g) = >>=-eq-ok (throw_if (is_some (entry_of m x).beacon) beacon_set) _ g in
        updated_names m x _ p (entry-NamesDiffer m.circuits x p) g)
  run_command-IsProper file (finalize_circuit x zkey json bin) h =
      written-IsProper file (cmd_finalize_circuit host x zkey json bin file) h (λ n g.
        let (_, _, g) =
          >>=-eq-ok
            (throw_if (is_missing x || is_missing zkey || is_missing json || is_missing bin)
              ceremony_usage)
            _ g in
        let (m, r, g) = >>=-eq-ok (read_manifest file) _ g in
        let p = read-IsProper file h r in
        let (_, _, g) = >>=-eq-ok (host.sha256_hex zkey) _ g in
        let (_, _, g) = >>=-eq-ok (host.sha256_hex json) _ g in
        let (_, _, g) = >>=-eq-ok (host.sha256_hex bin) _ g in
        updated_names m x _ p (entry-NamesDiffer m.circuits x p) g)
  run_command-IsProper file (check_circuit x bin) h = h

  run_all_names :
      (commands : List Command) (file : Option Manifest)
      → FileIsProper file
      → FileIsProper (run_all host commands file)
  unfolding run_all
  run_all_names [] file h = h
  run_all_names (c ∷ cs) file h =
      run_all_names cs (run_command host c file).0 (run_command-IsProper file c h)

  -- After any sequence of commands that begins without a manifest, no circuit has two contributions
  -- with one name.
  pub run_all-IsProper : (commands : List Command) → FileIsProper (run_all host commands none)
  run_all-IsProper commands = run_all_names commands none tt

  -- The check against an entry with a recorded hash.
  checked :
      (old : Manifest) (circuit bin hash : Text) (e : CircuitEntry) (final : Final)
      → e.final ≡ some final
      → final.vk_bin_sha256 ≡ hash
      → (is_missing circuit || is_missing bin) ≡ false
      → host.sha256_hex bin ≡ ok hash
      → is_missing hash ≡ false
      → cmd_check_circuit host circuit bin
          (some (record old { circuits = set_circuit old.circuits circuit e }))
        ≡ ok tt
  unfolding cmd_check_circuit
  checked old circuit bin hash e final he hf hp hb hm =
      let found : find_circuit (set_circuit old.circuits circuit e) circuit ≡ some e =
        rw (find_circuit-set_circuit old.circuits circuit circuit e, list_eq_refl circuit) refl in
      rw (cmd_check_circuit, hp, found, he, hf, hm, hb, list_eq_refl hash) refl

  -- A circuit that was finalised passes its check at once, for the same verification key file, whose
  -- hash is not empty.
  pub cmd_check_circuit-cmd_finalize_circuit :
      (circuit zkey json bin : Text) (file : Option Manifest) {m : Manifest} {hash : Text}
      → cmd_finalize_circuit host circuit zkey json bin file ≡ ok m
      → host.sha256_hex bin ≡ ok hash
      → is_missing hash ≡ false
      → cmd_check_circuit host circuit bin (some m) ≡ ok tt
  unfolding cmd_finalize_circuit
  cmd_check_circuit-cmd_finalize_circuit circuit zkey json bin file {m} {hash} h hb hm =
      let (_, args, g) =
        >>=-eq-ok
          (throw_if (is_missing circuit || is_missing zkey || is_missing json || is_missing bin)
            ceremony_usage)
          _ h in
      let (old, r, g) = >>=-eq-ok (read_manifest file) _ g in
      let (z, _, g) = >>=-eq-ok (host.sha256_hex zkey) _ g in
      let (j, _, g) = >>=-eq-ok (host.sha256_hex json) _ g in
      let (b, eb, g) = >>=-eq-ok (host.sha256_hex bin) _ g in
      let final : Final = record { zkey_sha256 = z; vk_json_sha256 = j; vk_bin_sha256 = b } in
      let same : b ≡ hash = ok_injective (sym eb ∙ hb) in
      subst (λ (n : Manifest). cmd_check_circuit host circuit bin (some n) ≡ ok tt) (ok_injective g)
        (checked old circuit bin b (record (entry_of old circuit) { final = some final }) final refl
          refl
          (two_of_four (is_missing circuit) (is_missing zkey) (is_missing json) (is_missing bin)
            (throw_if_true _ ceremony_usage args))
          eb (ap is_missing same ∙ hm))
