-- ===== src/Js/Json/Keys.antt =====
-- The values that print and parse alike, and objects with distinct keys.
use near_shield.Prelude.{
  ℕ, ◌≤◌, ◌<◌, All, ◌≡◌, refl, ap, sym, ◌∙◌, false, Bool-cases, inl, inr, list_eq, list_eq_iff,
}
use near_shield.Js.Text.{Text}
use near_shield.Js.Json.{
  Json, Items, Fields, null, bool, num, real, str, arr, obj, nil, cons, end, field,
}
use near_shield.Js.Json.Parse.{set_field, set_fields}

abbrev pub Fresh : Text → Fields → Type 0
Fresh k end = Unit
Fresh k (field j v fs) = (list_eq j k ≡ false) × Fresh k fs

abbrev pub Distinct : Fields → Type 0
Distinct end = Unit
Distinct (field k v fs) = Fresh k fs × Distinct fs

-- A UTF-16 code unit.
abbrev pub IsUnit : ℕ → Type 0
IsUnit c = c < 65536

-- Numbers are exact, texts are code units, and keys are distinct, at every level.
unfoldable mutual
  pub IsPlain : Json → Type 0
  IsPlain null = Unit
  IsPlain (bool b) = Unit
  IsPlain (num n) = n ≤ 9007199254740992
  IsPlain (real t) = ⊥
  IsPlain (str s) = All IsUnit s
  IsPlain (arr xs) = ItemsPlain xs
  IsPlain (obj fs) = Distinct fs × FieldsPlain fs

  pub ItemsPlain : Items → Type 0
  ItemsPlain nil = Unit
  ItemsPlain (cons v xs) = IsPlain v × ItemsPlain xs

  pub FieldsPlain : Fields → Type 0
  FieldsPlain end = Unit
  FieldsPlain (field k v fs) = All IsUnit k × IsPlain v × FieldsPlain fs

abbrev join : Fields → Fields → Fields
join end gs = gs
join (field k v fs) gs = field k v (join fs gs)

join_assoc : (a b c : Fields) → join (join a b) c ≡ join a (join b c)
join_assoc end b c = refl
join_assoc (field k v a) b c = ap (field k v) (join_assoc a b c)

join-end : (a : Fields) → join a end ≡ a
join-end end = refl
join-end (field k v a) = ap (field k v) (join-end a)

set_field-Fresh :
    (k : Text) (v : Json) (o : Fields) → Fresh k o → set_field k v o ≡ join o (field k v end)
unfolding set_field
set_field-Fresh k v end h = refl
set_field-Fresh k v (field j w o) h = rw h.0 (ap (field j w) (set_field-Fresh k v o h.1))

-- No key of the second stands in the first.
abbrev Apart : Fields → Fields → Type 0
Apart o end = Unit
Apart o (field k v fs) = Fresh k o × Apart o fs

Fresh-join :
    (k : Text) (o : Fields) (j : Text) (v : Json)
    → Fresh k o
    → list_eq j k ≡ false
    → Fresh k (join o (field j v end))
Fresh-join k end j v h e = (e, tt)
Fresh-join k (field i w o) j v h e = (h.0, Fresh-join k o j v h.1 e)

differ_sym : (j k : Text) → list_eq j k ≡ false → list_eq k j ≡ false
differ_sym j k h = elim (Bool-cases (list_eq k j)) [
  | inl same ↦ absurd (cc ((list_eq_iff j k).1 (sym ((list_eq_iff k j).0 same)), h))
  | inr other ↦ other
]

Apart-join :
    (o fs : Fields) (k : Text) (v : Json)
    → Apart o fs
    → Fresh k fs
    → Apart (join o (field k v end)) fs
Apart-join o end k v h g = tt
Apart-join o (field j w fs) k v h g =
    (Fresh-join j o k v h.0 (differ_sym j k g.0), Apart-join o fs k v h.1 g.1)

set_fields-join : (o fs : Fields) → Apart o fs → Distinct fs → set_fields o fs ≡ join o fs
unfolding set_fields
set_fields-join o end h d = sym (join-end o)
set_fields-join o (field k v fs) h d =
    ap (λ a. set_fields a fs) (set_field-Fresh k v o h.0)
    ∙ set_fields-join (join o (field k v end)) fs (Apart-join o fs k v h.1 d.0) d.1
    ∙ join_assoc o (field k v end) fs

Apart-end : (fs : Fields) → Apart end fs
Apart-end end = tt
Apart-end (field k v fs) = (tt, Apart-end fs)

-- Assigning distinct keys one after the other gives them in that order.
pub set_fields-Distinct : (fs : Fields) → Distinct fs → set_fields end fs ≡ fs
set_fields-Distinct fs d = set_fields-join end fs (Apart-end fs) d
