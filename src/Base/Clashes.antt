-- ===== src/Base/Clashes.antt =====
-- The loop that looks for two names with the same image, by a map of the images it has seen.
use Prim.Native.String.{String}
use mathlib.Core.Path.{◌≡◌, refl, sym, ◌∙◌}
use mathlib.Core.Logic.{◌≢◌, ◌↔◌, inl, inr}
use mathlib.Core.Bool.{false}
use mathlib.Core.Option.{Option, none, some}
use mathlib.Core.List.{List, [], ◌∷◌}
use flowlite.Base.Tests.{Bool-cases, Option-cases}
use flowlite.Base.Columns.{◌==◌, string_Column}
use flowlite.Base.Lists.{All, All-imp, All-zip}
use flowlite.Base.Maps.{get, put, get-put}

module _ (image : String → String) where
  -- The first name whose image was seen, behind the name that it was seen of.
  unfoldable pub first_clash : List (String × String) → List String → Option (String × String)
  first_clash seen [] = none
  first_clash seen (name ∷ names) = elim (get seen (image name)) [
    | some other ↦ some (other, name)
    | none ↦ first_clash (put seen (image name) name) names
  ]

  -- No two names have the same image.
  abbrev pub Apart : List String → Type 0
  Apart [] = Unit
  Apart (name ∷ names) = All (λ other. image other ≢ image name) names × Apart names

  abbrev Unseen : List (String × String) → List String → Type 0
  Unseen seen names = All (λ name. get seen (image name) ≡ none) names

  -- What a further image does to the names that are unseen.
  unseen-put :
      (seen : List (String × String)) (name other : String)
      → (get (put seen (image name) name) (image other) ≡ none)
        ↔ ((get seen (image other) ≡ none) × (image other ≢ image name))
  unseen-put seen name other =
      let after = get-put seen (image name) name (image other) in
      elim (Bool-cases (image name == image other)) [
        | inl same ↦
            let e = (string_Column.equals_iff (image name) (image other)).0 same in
            let there = rw same at after in
            (λ h. absurd (some-ne-none (sym there ∙ h)), λ h. absurd (h.1 (sym e)))
        | inr off ↦
            let unchanged = rw off at after in
            (λ h. (sym unchanged ∙ h, λ e. differs e off), λ h. unchanged ∙ h.0)
      ]
    where
      some-ne-none : {x : String} → ¬ (some x ≡ none)
      some-ne-none e = cc

      differs : image other ≡ image name → ¬ ((image name == image other) ≡ false)
      differs e off =
          let same = (string_Column.equals_iff (image name) (image other)).1 (sym e) in cc

  first_clash_iff :
      (seen : List (String × String)) (names : List String)
      → (first_clash seen names ≡ none) ↔ (Unseen seen names × Apart names)
  unfolding first_clash
  first_clash_iff seen [] = (λ _. (tt, tt), λ _. refl)
  first_clash_iff seen (name ∷ names) =
      let (to, from) = first_clash_iff (put seen (image name) name) names in
      elim (Option-cases (get seen (image name))) [
        | inr (other, found) ↦ (
          λ h. absurd (clashes other (rw (found, first_clash) at h)),
          λ h. absurd (unlike other (sym found ∙ h.0.0)),
        )
        | inl unseen ↦
            rw (unseen, first_clash)
              (
                λ h. (
                  (refl, All-imp (λ other u. ((unseen-put seen name other).0 u).0) names (to h).0),
                  (
                    All-imp (λ other u. ((unseen-put seen name other).0 u).1) names (to h).0,
                    (to h).1,
                  ),
                ),
                λ h. from (
                  All-zip (λ other u v. (unseen-put seen name other).1 (u, v)) names h.0.1 h.1.0,
                  h.1.1,
                ),
              )
      ]
    where
      clashes : (other : String) → ¬ ◌≡◌ {A = Option (String × String)} (some (other, name)) none
      clashes other e = cc

      unlike : (other : String) → ¬ (some other ≡ none)
      unlike other e = cc

  -- No clash is found exactly where all images differ.
  pub first_clash-eq-none : (names : List String) → (first_clash [] names ≡ none) ↔ Apart names
  unfolding get
  first_clash-eq-none names =
      let (to, from) = first_clash_iff [] names in
      (λ h. (to h).1, λ apart. from (unseen names, apart))
    where
      unseen : (names : List String) → Unseen [] names
      unseen [] = tt
      unseen (name ∷ names) = (refl, unseen names)
