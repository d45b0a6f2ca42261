-- ===== src/Demo/Prereqs/Builds.antt =====
-- When `assertPrereqs` of demo/src/prereqs.ts throws, and the builds that its message lists.
use near_shield.Prelude.{
  ◌≡◌, ◌↔◌, refl, arith, Bool, true, false, ◌||◌, Bool-cases, inl, inr, All, List, [], ◌∷◌, ◌++◌,
  list_eq, ok,
}
use near_shield.Js.Text.{Text}
use near_shield.Demo.Prereqs.{
  Prereq, get_prereqs, missing_prereqs, seen_build, new_builds, report, assert_prereqs,
}

missing_prereqs-nil :
    (exists : Text → Bool) (ps : List Prereq)
    → (report (missing_prereqs exists ps) ≡ ok tt) ↔ All (λ p. exists p.rel_path ≡ true) ps
unfolding missing_prereqs
missing_prereqs-nil exists [] = (λ h. tt, λ h. refl)
missing_prereqs-nil exists (p ∷ ps) = elim (Bool-cases (exists p.rel_path)) [
  | inl there ↦
      let (left, right) = missing_prereqs-nil exists ps in
      rw there (λ h. (refl, left h), λ h. right h.1)
  | inr absent ↦ rw absent (λ h. absurd (cc h), λ h. absurd (cc h.0))
]

-- The demo starts exactly if every artifact is there.
pub assert_prereqs_iff :
    (exists : Text → Bool)
    → (assert_prereqs exists ≡ ok tt) ↔ All (λ p. exists p.rel_path ≡ true) get_prereqs
unfolding assert_prereqs
assert_prereqs_iff exists = missing_prereqs-nil exists get_prereqs

seen_build-append :
    (xs : List Text) (a b : Text) → seen_build (xs ++ a ∷ []) b ≡ (seen_build xs b || list_eq a b)
unfolding seen_build
seen_build-append [] a b = ground arith
seen_build-append (x ∷ xs) a b = ground (arith, seen_build-append xs a b)

-- No line is listed that has been seen.
unseen :
    (seen : List Text) (ms : List Prereq)
    → All (λ b. seen_build seen b ≡ false) (new_builds seen ms)
unfolding new_builds
unseen seen [] = tt
unseen seen (m ∷ ms) = elim (Bool-cases (seen_build seen m.build)) [
  | inl old ↦ rw old (unseen seen ms)
  | inr new ↦
      rw new (new, weaker (new_builds (seen ++ m.build ∷ []) ms) (unseen (seen ++ m.build ∷ []) ms))
]
  where
    weaker :
        (bs : List Text)
        → All (λ b. seen_build (seen ++ m.build ∷ []) b ≡ false) bs
        → All (λ b. seen_build seen b ≡ false) bs
    weaker [] h = tt
    weaker (b ∷ bs) h = (ground (arith, h.0, seen_build-append seen m.build b), weaker bs h.1)

abbrev pub AllDiffer : List Text → Type 0
AllDiffer [] = Unit
AllDiffer (b ∷ bs) = All (λ c. list_eq b c ≡ false) bs × AllDiffer bs

differs_from :
    (seen : List Text) (a : Text) (bs : List Text)
    → All (λ b. seen_build (seen ++ a ∷ []) b ≡ false) bs
    → All (λ c. list_eq a c ≡ false) bs
differs_from seen a [] h = tt
differs_from seen a (b ∷ bs) h =
    (ground (arith, h.0, seen_build-append seen a b), differs_from seen a bs h.1)

-- The message lists no build twice.
pub new_builds-AllDiffer : (seen : List Text) (ms : List Prereq) → AllDiffer (new_builds seen ms)
unfolding new_builds
new_builds-AllDiffer seen [] = tt
new_builds-AllDiffer seen (m ∷ ms) = elim (Bool-cases (seen_build seen m.build)) [
  | inl old ↦ rw old (new_builds-AllDiffer seen ms)
  | inr new ↦ rw new (
    differs_from seen m.build (new_builds (seen ++ m.build ∷ []) ms)
        (unseen (seen ++ m.build ∷ []) ms),
    new_builds-AllDiffer (seen ++ m.build ∷ []) ms,
  )
]
