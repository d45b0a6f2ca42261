-- ===== src/Ceremony/Transcript/Growth.antt =====
-- Manifests of ceremony/scripts/manifest.mjs whose entry of a circuit has grown.
use mathlib.Core.List.{append-nil, append_assoc}
use near_shield.Prelude.{
  ◌≡◌, refl, ap, sym, subst, ◌∙◌, true, false, Bool-cases, inl, inr, Option, none, some, List, [],
  ◌∷◌, ◌++◌, length, list_eq, list_eq_iff, Result, ok, err, ok_injective, if◌then◌else◌, arith,
  ◌==◌,
}
use near_shield.Js.Text.{Text}
use near_shield.Ceremony.{
  Contribution, Beacon, Final, CircuitEntry, Ptau, Manifest, find_circuit, set_circuit,
  entry_or_new, entry_of, is_some, written,
}

pub apart : (b c d : Text) → list_eq b d ≡ true → list_eq b c ≡ false → list_eq c d ≡ false
apart b c d h g = elim (Bool-cases (list_eq c d)) [
  | inl same ↦
      absurd (cc ((list_eq_iff b c).1 ((list_eq_iff b d).0 h ∙ sym ((list_eq_iff c d).0 same)), g))
  | inr other ↦ other
]

pub find_circuit-set_circuit :
    (cs : List (Text × CircuitEntry)) (c d : Text) (e : CircuitEntry)
    → find_circuit (set_circuit cs c e) d ≡ (if list_eq c d then some e else find_circuit cs d)
unfolding find_circuit set_circuit
find_circuit-set_circuit [] c d e = refl
find_circuit-set_circuit ((b, f) ∷ cs) c d e = elim (Bool-cases (list_eq b c)) [
  | inl same ↦
      rw (same, (list_eq_iff b c).0 same)
        (elim (Bool-cases (list_eq c d)) [ inl here ↦ rw here refl | inr there ↦ rw there refl ])
  | inr other ↦ elim (Bool-cases (list_eq b d)) [
    | inl here ↦ rw (other, here, apart b c d here other) refl
    | inr there ↦ rw (other, there) (find_circuit-set_circuit cs c d e)
  ]
]

-- A beacon that is set stays.
abbrev pub KeepsBeacon : Option Beacon → Option Beacon → Type 0
KeepsBeacon none after = Unit
KeepsBeacon (some b) after = after ≡ some b

-- Final hashes that are set may be replaced, and are never removed.
abbrev pub KeepsFinal : Option Final → Option Final → Type 0
KeepsFinal none after = Unit
KeepsFinal (some f) after = (g : Final) × (after ≡ some g)

-- More contributions behind the old ones, the same beacon, and final hashes if there were some.
pub record Grows (e f : CircuitEntry) : Type 0 where
  pub added : List Contribution
  pub contributions : f.contributions ≡ e.contributions ++ added
  pub beacon : KeepsBeacon e.beacon f.beacon
  pub final : KeepsFinal e.final f.final

pub KeepsFinal-refl : (f : Option Final) → KeepsFinal f f
KeepsFinal-refl none = tt
KeepsFinal-refl (some f) = (f, refl)

pub KeepsFinal-some : (f : Option Final) (g : Final) → KeepsFinal f (some g)
KeepsFinal-some none g = tt
KeepsFinal-some (some f) g = (g, refl)

KeepsFinal-trans : (a b c : Option Final) → KeepsFinal a b → KeepsFinal b c → KeepsFinal a c
KeepsFinal-trans none b c h g = tt
KeepsFinal-trans (some x) b c h g = subst (λ y. KeepsFinal y c) h.1 g

pub KeepsBeacon-refl : (b : Option Beacon) → KeepsBeacon b b
KeepsBeacon-refl none = tt
KeepsBeacon-refl (some b) = refl

pub KeepsBeacon-trans :
    (a b c : Option Beacon) → KeepsBeacon a b → KeepsBeacon b c → KeepsBeacon a c
KeepsBeacon-trans none b c h g = tt
KeepsBeacon-trans (some x) b c h g = subst (λ y. KeepsBeacon y c) h g

pub Grows-refl : (e : CircuitEntry) → Grows e e
Grows-refl e = record {
  added = [];
  contributions = sym (append-nil e.contributions);
  beacon = KeepsBeacon-refl e.beacon;
  final = KeepsFinal-refl e.final;
}

pub Grows-trans : (e f g : CircuitEntry) → Grows e f → Grows f g → Grows e g
Grows-trans e f g a b = record {
  added = a.added ++ b.added;
  contributions =
      b.contributions
      ∙ ap (λ cs. cs ++ b.added) a.contributions
      ∙ append_assoc e.contributions a.added b.added;
  beacon = KeepsBeacon-trans e.beacon f.beacon g.beacon a.beacon b.beacon;
  final = KeepsFinal-trans e.final f.final g.final a.final b.final;
}

-- The file still holds the manifest's phase-1 file and the grown entry of a circuit.
pub record Holds (ptau : Ptau) (c : Text) (e : CircuitEntry) (file : Option Manifest) : Type 0 where
  pub manifest : Manifest
  pub present : file ≡ some manifest
  pub same_ptau : manifest.ptau ≡ ptau
  pub entry : CircuitEntry
  pub recorded : find_circuit manifest.circuits c ≡ some entry
  pub grown : Grows e entry

pub length-find_circuit :
    (cs : List (Text × CircuitEntry)) (c : Text) {e : CircuitEntry}
    → find_circuit cs c ≡ some e
    → (length cs == 0) ≡ false
unfolding find_circuit
length-find_circuit [] c h = cc
length-find_circuit (x ∷ cs) c h = ground arith

pub set_circuit-Holds :
    (m : Manifest) (c x : Text) (e f : CircuitEntry)
    → find_circuit m.circuits c ≡ some e
    → Grows (entry_of m x) f
    → Holds m.ptau c e (some (record m { circuits = set_circuit m.circuits x f }))
unfolding entry_of
set_circuit-Holds m c x e f h g = elim (Bool-cases (list_eq x c)) [
  | inl same ↦
      let old : entry_of m x ≡ e =
        ap (λ (t : Text). entry_or_new (find_circuit m.circuits t)) ((list_eq_iff x c).0 same)
        ∙ ap entry_or_new h in
      record {
        manifest = record m { circuits = set_circuit m.circuits x f };
        present = refl;
        same_ptau = refl;
        entry = f;
        recorded = rw (find_circuit-set_circuit m.circuits x c f, same) refl;
        grown = subst (λ (y : CircuitEntry). Grows y f) old g;
      }
  | inr other ↦ record {
    manifest = record m { circuits = set_circuit m.circuits x f };
    present = refl;
    same_ptau = refl;
    entry = e;
    recorded = rw (find_circuit-set_circuit m.circuits x c f, other) h;
    grown = Grows-refl e;
  }
]

pub unchanged :
    (m : Manifest) (c : Text) (e : CircuitEntry)
    → find_circuit m.circuits c ≡ some e
    → Holds m.ptau c e (some m)
unchanged m c e h = record {
  manifest = m;
  present = refl;
  same_ptau = refl;
  entry = e;
  recorded = h;
  grown = Grows-refl e;
}

pub written-Holds :
    (m : Manifest) (c : Text) (e : CircuitEntry) (r : Result Manifest)
    → find_circuit m.circuits c ≡ some e
    → ((n : Manifest) → r ≡ ok n → Holds m.ptau c e (some n))
    → Holds m.ptau c e (written r (some m)).0
written-Holds m c e (err x) h g = unchanged m c e h
written-Holds m c e (ok n) h g = g n refl

-- An update of one entry, in the form that every command gives it.
pub updated :
    (m : Manifest) (c x : Text) (e f : CircuitEntry) {n : Manifest}
    → find_circuit m.circuits c ≡ some e
    → Grows (entry_of m x) f
    → ok (record m { circuits = set_circuit m.circuits x f }) ≡ ok n
    → Holds m.ptau c e (some n)
updated m c x e f h g same =
    subst (λ (n : Manifest). Holds m.ptau c e (some n)) (ok_injective same)
      (set_circuit-Holds m c x e f h g)

pub unset_beacon_lem :
    (b : Option Beacon) (after : Option Beacon) → is_some b ≡ false → KeepsBeacon b after
unset_beacon_lem none after h = tt
unset_beacon_lem (some b) after h = absurd (cc h)
