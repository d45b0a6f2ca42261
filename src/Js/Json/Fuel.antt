-- ===== src/Js/Json/Fuel.antt =====
-- `JSON.parse` ends: its fuel is enough for every input.
pub mod Lexing
use near_shield.Prelude.{
  ℕ, zero, suc, ◌+◌, ◌*◌, ◌<◌, ◌≤◌, ◌≡◌, refl, ap, ◌⊎◌, arith, Bool, true, false, Bool-cases, inl,
  inr, Option, none, some, [], ◌∷◌, length, ltb, ◌==◌, if◌then◌else◌, Error, Result, ok, err, ◌>>=◌,
  syntax_error,
}
use near_shield.Js.Text.{Text, codes}
use near_shield.Js.Json.{Json, Items, Fields, null, bool, str, arr, obj, nil, cons, end, field}
use near_shield.Js.Json.Parse.{
  Doubles, is_json_space, skip_space, Mode, plain, escaped, hex, escape_value, hex_value, put,
  chars, before, span, is_number_unit, is_integer, is_number, set_fields, parse_key, parse_colon,
  parse_word, number_value, parse_scalar, parse_value, parse_start, parse_array, parse_items,
  parse_items_end, parse_object, parse_fields, parse_fields_end, at_end, parse,
}
use Lexing.{
  Within, Within-bind, Within-mono, length-skip_space, Within-put, chars-Within, Leaves,
  Leaves-bind, parse_word-Leaves, parse_colon-Leaves, parse_key-Within, span-length,
}

module _ (d : Doubles) where
  number_value-Within :
      (n : ℕ) (t rest : Text) → length rest < n → Within n (number_value d t >>= λ v. ok (v, rest))
  unfolding number_value
  number_value-Within n t rest h = elim (Bool-cases (is_integer t)) [
    | inl integer ↦ rw integer h
    | inr other ↦ elim (Bool-cases (is_number t)) [
      | inl number ↦ rw (other, number) h
      | inr bad ↦ rw (other, bad) refl
    ]
  ]

  number-Within :
      (c : ℕ) (cs : Text)
      → Within (suc (length cs)) (
          number_value d (span is_number_unit (c ∷ cs)).0 >>= λ v.
          ok (v, (span is_number_unit (c ∷ cs)).1))
  unfolding span
  number-Within c cs = elim (Bool-cases (is_number_unit c)) [
    | inl unit ↦
        rw unit
          (number_value-Within (suc (length cs)) _ _ (omega (arith, span-length is_number_unit cs)))
    | inr other ↦ rw other (unfold number_value is_integer is_number in refl)
  ]

  word-Within :
      (v : Json) (w cs : Text) → Within (suc (length cs)) (parse_word w cs >>= λ rest. ok (v, rest))
  word-Within v w cs =
      Leaves-bind (suc (length cs)) (suc (length cs)) (parse_word w cs) _ (parse_word-Leaves w cs)
        (λ rest h. h)

  parse_scalar-Within : (c : ℕ) (cs : Text) → Within (suc (length cs)) (parse_scalar d c cs)
  unfolding parse_scalar
  parse_scalar-Within c cs = elim (Bool-cases (c == b'"')) [
    | inl quote ↦ rw quote (
        Within-bind (length cs) (suc (length cs)) (chars plain cs) _ (chars-Within plain cs)
          (λ s rest h. omega (arith, h)))
    | inr e1 ↦ elim (Bool-cases (c == b'n')) [
      | inl n ↦ rw (e1, n) (word-Within null (codes "ull") cs)
      | inr e2 ↦ elim (Bool-cases (c == b't')) [
        | inl t ↦ rw (e1, e2, t) (word-Within (bool true) (codes "rue") cs)
        | inr e3 ↦ elim (Bool-cases (c == b'f')) [
          | inl f ↦ rw (e1, e2, e3, f) (word-Within (bool false) (codes "alse") cs)
          | inr e4 ↦ rw (e1, e2, e3, e4) (number-Within c cs)
        ]
      ]
    ]
  ]

  mutual
    unfolding parse_value parse_start parse_array parse_items parse_items_end parse_object
        parse_fields parse_fields_end

    value-Within :
        (f : ℕ) (cs : Text) → 4 * length cs + 1 < f → Within (length cs) (parse_value d f cs)
    value-Within zero cs h = absurd (omega (arith, h))
    value-Within (suc f) cs h =
        Within-mono (length (skip_space cs)) (length cs) (parse_start d f (skip_space cs))
          (length-skip_space cs)
          (start-Within f (skip_space cs) (omega (arith, h, length-skip_space cs)))

    start-Within : (f : ℕ) (cs : Text) → 4 * length cs < f → Within (length cs) (parse_start d f cs)
    start-Within zero cs h = absurd (omega (arith, h))
    start-Within (suc f) [] h = refl
    start-Within (suc f) (c ∷ cs) h = elim (Bool-cases (c == b'[')) [
      | inl bracket ↦ rw bracket (
          Within-bind (length cs) (suc (length cs)) (parse_array d f (skip_space cs)) _
            (Within-mono (length (skip_space cs)) (length cs) (parse_array d f (skip_space cs))
              (length-skip_space cs)
              (array-Within f (skip_space cs) (omega (arith, h, length-skip_space cs))))
            (λ xs rest l. omega (arith, l)))
      | inr other ↦ elim (Bool-cases (c == b'{')) [
        | inl brace ↦
            rw (other, brace)
              (Within-bind (length cs) (suc (length cs)) (parse_object d f (skip_space cs)) _
                (Within-mono (length (skip_space cs)) (length cs) (parse_object d f (skip_space cs))
                  (length-skip_space cs)
                  (object-Within f (skip_space cs) (omega (arith, h, length-skip_space cs))))
                (λ fs rest l. omega (arith, l)))
        | inr scalar ↦ rw (other, scalar) (parse_scalar-Within c cs)
      ]
    ]

    array-Within :
        (f : ℕ) (cs : Text) → 4 * length cs + 3 < f → Within (length cs) (parse_array d f cs)
    array-Within zero cs h = absurd (omega (arith, h))
    array-Within (suc f) [] h = refl
    array-Within (suc f) (c ∷ cs) h = elim (Bool-cases (c == b']')) [
      | inl bracket ↦ rw bracket (omega arith)
      | inr other ↦ rw other (items-Within f (c ∷ cs) (omega (arith, h)))
    ]

    items-Within :
        (f : ℕ) (cs : Text) → 4 * length cs + 2 < f → Within (length cs) (parse_items d f cs)
    items-Within zero cs h = absurd (omega (arith, h))
    items-Within (suc f) cs h =
        Within-bind (length cs) (length cs) (parse_value d f cs) _
          (value-Within f cs (omega (arith, h)))
          (λ v rest l.
            Within-mono (length (skip_space rest)) (length cs)
              (parse_items_end d f v (skip_space rest)) (omega (arith, l, length-skip_space rest))
              (items_end-Within f v (skip_space rest)
                (omega (arith, h, l, length-skip_space rest))))

    items_end-Within :
        (f : ℕ) (v : Json) (cs : Text)
        → 4 * length cs < f
        → Within (length cs) (parse_items_end d f v cs)
    items_end-Within zero v cs h = absurd (omega (arith, h))
    items_end-Within (suc f) v [] h = refl
    items_end-Within (suc f) v (c ∷ cs) h = elim (Bool-cases (c == b']')) [
      | inl bracket ↦ rw bracket (omega arith)
      | inr other ↦ elim (Bool-cases (c == b',')) [
        | inl comma ↦
            rw (other, comma)
              (Within-bind (length cs) (suc (length cs)) (parse_items d f cs) _
                (items-Within f cs (omega (arith, h))) (λ xs rest l. omega (arith, l)))
        | inr bad ↦ rw (other, bad) refl
      ]
    ]

    object-Within :
        (f : ℕ) (cs : Text) → 4 * length cs + 3 < f → Within (length cs) (parse_object d f cs)
    object-Within zero cs h = absurd (omega (arith, h))
    object-Within (suc f) [] h = refl
    object-Within (suc f) (c ∷ cs) h = elim (Bool-cases (c == b'}')) [
      | inl brace ↦ rw brace (omega arith)
      | inr other ↦ rw other (fields-Within f (c ∷ cs) (omega (arith, h)))
    ]

    fields-Within :
        (f : ℕ) (cs : Text) → 4 * length cs + 2 < f → Within (length cs) (parse_fields d f cs)
    fields-Within zero cs h = absurd (omega (arith, h))
    fields-Within (suc f) cs h =
        Within-bind (length cs) (length cs) (parse_key (skip_space cs)) _
          (Within-mono (length (skip_space cs)) (length cs) (parse_key (skip_space cs))
            (length-skip_space cs) (parse_key-Within (skip_space cs)))
          (λ k rest l.
            Leaves-bind (length (skip_space rest)) (length cs) (parse_colon (skip_space rest)) _
              (parse_colon-Leaves (skip_space rest))
              (λ after m.
                Within-bind (length after) (length cs) (parse_value d f after) _
                  (value-Within f after (omega (arith, h, l, m, length-skip_space rest)))
                  (λ v last o.
                    Within-mono (length (skip_space last)) (length cs)
                      (parse_fields_end d f k v (skip_space last))
                      (omega (arith, l, m, o, length-skip_space rest, length-skip_space last))
                      (fields_end-Within f k v (skip_space last) (
                        omega
                          (arith, h, l, m, o, length-skip_space rest, length-skip_space last))))))

    fields_end-Within :
        (f : ℕ) (k : Text) (v : Json) (cs : Text)
        → 4 * length cs < f
        → Within (length cs) (parse_fields_end d f k v cs)
    fields_end-Within zero k v cs h = absurd (omega (arith, h))
    fields_end-Within (suc f) k v [] h = refl
    fields_end-Within (suc f) k v (c ∷ cs) h = elim (Bool-cases (c == b'}')) [
      | inl brace ↦ rw brace (omega arith)
      | inr other ↦ elim (Bool-cases (c == b',')) [
        | inl comma ↦
            rw (other, comma)
              (Within-bind (length cs) (suc (length cs)) (parse_fields d f cs) _
                (fields-Within f cs (omega (arith, h))) (λ fs rest l. omega (arith, l)))
        | inr bad ↦ rw (other, bad) refl
      ]
    ]

  at_end-cases :
      (v : Json) (cs : Text)
      → ((w : Json) × (at_end d v cs ≡ ok w)) ⊎ (at_end d v cs ≡ err syntax_error)
  at_end-cases v [] = inl (v, refl)
  at_end-cases v (c ∷ cs) = inr refl

  -- Every text is parsed or refused with a SyntaxError: the fuel never runs out.
  parse-total : (s : Text) → ((v : Json) × (parse d s ≡ ok v)) ⊎ (parse d s ≡ err syntax_error)
  unfolding parse
  parse-total s =
      ended (parse_value d (4 * length s + 2) s) (value-Within (4 * length s + 2) s (omega arith))
    where
      ended :
          (r : Result (Json × Text))
          → Within (length s) r
          → let parsed = r >>= λ (v, rest). at_end d v (skip_space rest) in
            ((v : Json) × (parsed ≡ ok v)) ⊎ (parsed ≡ err syntax_error)
      ended (err e) h = inr (ap err h)
      ended (ok (v, rest)) h = at_end-cases v (skip_space rest)
