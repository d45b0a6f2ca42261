-- ===== src/Sdk/Prover/Input.antt =====
-- The circuit input that a request is mapped to.
use Prim.Native.String.{String}
use package.text.Mathlib.Text.{◌==◌ as str_eq}
use package.text.Mathlib.TextEquality.{eq_iff}
use near_shield.Prelude.{
  ℕ, zero, suc, ◌≡◌, refl, ap, sym, subst, ◌∙◌, Bool, true, false, Bool-cases, inl, inr, some, List,
  [], ◌∷◌, length, get_elem?, if◌then◌else◌, ◌==◌, ==_iff, not, ok, throw_if, ok_injective,
  >>=-eq-ok, throw_if-not, public_input_count,
}
use near_shield.Js.Text.{Text}
use near_shield.Core.Disclosure.{Action, deposit, transfer, withdraw}
use near_shield.Sdk.Prover.{
  Value, text, ProveRequest, public_names, renames, rename, conv, assign, lookup, assign_public,
  assign_witness, prove_request_to_circom_input,
}

-- No name of the list is `n`.
pub absent : String → List String → Bool
absent n [] = true
absent n (m ∷ ms) = if str_eq m n then false else absent n ms

pub distinct : List String → Bool
distinct [] = true
distinct (n ∷ ns) = if absent n ns then distinct ns else false

-- No key of the witness is renamed to `n`.
abbrev pub fresh : List (String × String) → String → List (String × Value) → Bool
fresh names n [] = true
fresh names n ((k, v) ∷ ws) = if str_eq (rename names k) n then false else fresh names n ws

if_true : (b c : Bool) → (if b then c else false) ≡ true → (b ≡ true) × (c ≡ true)
if_true true c h = (refl, h)
if_true false c h = absurd (cc)

if_false : (b c : Bool) → (if b then false else c) ≡ true → (b ≡ false) × (c ≡ true)
if_false true c h = absurd (cc)
if_false false c h = (refl, h)

str_eq_self : (s : String) → str_eq s s ≡ true
str_eq_self s = (eq_iff s s).1 refl

-- An assignment changes its own key and no other.
lookup-assign :
    (k j : String) (v : Value) (o : List (String × Value))
    → lookup k (assign j v o) ≡ (if str_eq j k then some v else lookup k o)
unfolding lookup assign
lookup-assign k j v [] = refl
lookup-assign k j v ((i, w) ∷ o) = elim (Bool-cases (str_eq i j)) [
  | inl same ↦
      let e : i ≡ j = (eq_iff i j).0 same in
      rw (same, e) (elim (Bool-cases (str_eq j k)) [ inl h ↦ rw h refl | inr h ↦ rw h refl ])
  | inr other ↦ elim (Bool-cases (str_eq i k)) [
    | inl here ↦ rw (other, here, lookup) (sym (rw (differ other here) refl))
    | inr there ↦ rw (other, there, lookup) (lookup-assign k j v o)
  ]
]
  where
    differ : str_eq i j ≡ false → str_eq i k ≡ true → str_eq j k ≡ false
    differ other here = elim (Bool-cases (str_eq j k)) [
      | inl met ↦
          absurd (cc ((eq_iff i j).1 ((eq_iff i k).0 here ∙ sym ((eq_iff j k).0 met)), other))
      | inr apart ↦ apart
    ]

lookup-assign_witness :
    (names : List (String × String)) (n : String) (ws input : List (String × Value))
    {out : List (String × Value)}
    → fresh names n ws ≡ true
    → assign_witness names ws input ≡ ok out
    → lookup n out ≡ lookup n input
unfolding assign_witness
lookup-assign_witness names n [] input h g = ap (lookup n) (sym (ok_injective g))
lookup-assign_witness names n ((k, v) ∷ ws) input h g =
    let (other, rest) = if_false (str_eq (rename names k) n) _ h in
    let (w, _, g) = >>=-eq-ok (conv v) _ g in
    lookup-assign_witness names n ws (assign (rename names k) w input) rest g
    ∙ lookup-assign n (rename names k) w input
    ∙ ap (λ b. if b then some w else lookup n input) other

lookup-assign_public-absent :
    (ns : List String) (vs : List Text) (n : String) (input : List (String × Value))
    {out : List (String × Value)}
    → absent n ns ≡ true
    → assign_public ns vs input ≡ ok out
    → lookup n out ≡ lookup n input
unfolding assign_public absent
lookup-assign_public-absent [] vs n input h g = ap (lookup n) (sym (ok_injective g))
lookup-assign_public-absent (m ∷ ns) [] n input h g = absurd (cc)
lookup-assign_public-absent (m ∷ ns) (v ∷ vs) n input h g =
    let (other, rest) = if_false (str_eq m n) _ h in
    let (w, _, g) = >>=-eq-ok (conv (text v)) _ g in
    lookup-assign_public-absent ns vs n (assign m w input) rest g
    ∙ lookup-assign n m w input
    ∙ ap (λ b. if b then some w else lookup n input) other

lookup-assign_public :
    (ns : List String) (vs : List Text) (i : ℕ) (n : String) (v : Text)
    (input : List (String × Value)) {out : List (String × Value)}
    → distinct ns ≡ true
    → get_elem? ns i ≡ some n
    → get_elem? vs i ≡ some v
    → assign_public ns vs input ≡ ok out
    → (w : Value) × (conv (text v) ≡ ok w) × (lookup n out ≡ some w)
unfolding assign_public distinct
lookup-assign_public [] vs i n v input d hn hv g = absurd (cc)
lookup-assign_public (m ∷ ns) [] i n v input d hn hv g = absurd (cc)
lookup-assign_public (m ∷ ns) (u ∷ vs) zero n v input {out} d hn hv g =
    let (w, converted, g) = >>=-eq-ok (conv (text u)) _ g in
    let (alone, _) = if_true (absent m ns) _ d in
    let e : m ≡ n = cc in
    let f : u ≡ v = cc in
    (
      w,
      subst (λ x. conv (text x) ≡ ok w) f converted,
      subst (λ x. lookup x out ≡ some w) e
          (lookup-assign_public-absent ns vs m (assign m w input) alone g
            ∙ lookup-assign m m w input
            ∙ ap (λ b. if b then some w else lookup m input) (str_eq_self m)),
    )
lookup-assign_public (m ∷ ns) (u ∷ vs) (suc i) n v input d hn hv g =
    let (w, _, g) = >>=-eq-ok (conv (text u)) _ g in
    lookup-assign_public ns vs i n v (assign m w input) (if_true (absent m ns) _ d).1 hn hv g

public_names-distinct : (c : Action) → distinct (public_names c) ≡ true
unfolding distinct absent
public_names-distinct deposit = refl
public_names-distinct transfer = refl
public_names-distinct withdraw = refl

-- A request that is mapped has as many public inputs as the circuit names, and its i-th public
-- input stands in the circuit input under the i-th name, converted, unless a key of the witness is
-- renamed to that name.
pub prove_request_to_circom_input-public :
    (req : ProveRequest) (i : ℕ) (n : String) (v : Text) {input : List (String × Value)}
    → prove_request_to_circom_input req ≡ ok input
    → get_elem? (public_names req.circuit) i ≡ some n
    → get_elem? req.public_inputs i ≡ some v
    → fresh (renames req.circuit) n req.witness ≡ true
    → (length req.public_inputs ≡ length (public_names req.circuit))
      × ((w : Value) × (conv (text v) ≡ ok w) × (lookup n input ≡ some w))
unfolding prove_request_to_circom_input
prove_request_to_circom_input-public req i n v h hn hv unused =
    let (_, counted, h) =
      >>=-eq-ok
        (throw_if (not (length req.public_inputs == length (public_names req.circuit)))
          public_input_count)
        _ h in
    let (mid, assigned, h) =
      >>=-eq-ok (assign_public (public_names req.circuit) req.public_inputs []) _ h in
    let (w, converted, found) =
      lookup-assign_public (public_names req.circuit) req.public_inputs i n v []
        (public_names-distinct req.circuit) hn hv assigned in
    (
      (==_iff _ _).0 (throw_if-not _ public_input_count counted),
      (
        w,
        converted,
        lookup-assign_witness (renames req.circuit) n req.witness mid unused h ∙ found,
      ),
    )
