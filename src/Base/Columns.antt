-- ===== src/Base/Columns.antt =====
-- Equality tests as an interface: one operator for every type of value that a column holds.
use Prim.Native.String.{String}
use text.Mathlib.Text.{◌==◌ as str_eq}
use text.Mathlib.TextEquality.{eq_iff}
use Prim.Native.Nat.{ℕ}
use mathlib.Core.Path.{◌≡◌, refl}
use mathlib.Core.Logic.{◌↔◌}
use mathlib.Core.Bool.{Bool, true, false}
use mathlib.Core.Option.{Option, none, some}
use flowlite.Base.Tests.{◌==◌ as nat_eq, ==_iff}

-- A type that a column may have, with the test that `=` makes in a WHERE.
pub record Column {ℓ} (T : Type ℓ) : Type ℓ where
  pub equals : T → T → Bool
  pub equals_iff : (x y : T) → (equals x y ≡ true) ↔ (x ≡ y)

instance abbrev pub string_Column : Column String
string_Column = record { equals_iff = eq_iff; equals = str_eq }

instance abbrev pub nat_Column : Column ℕ
nat_Column = record { equals_iff = ==_iff; equals = nat_eq }

infix 50 ◌==◌
abbrev pub ◌==◌ {ℓ} : {T : Type ℓ} ⦃column : Column T⦄ → T → T → Bool
◌==◌ ⦃column⦄ x y = column.equals x y

abbrev pub decide_eq {ℓ} : {A : Type ℓ} {a b : A} → Dec (a ≡ b) → Bool
decide_eq (yes _) = true
decide_eq (no _) = false

pub decide_eq_iff {ℓ} : {A : Type ℓ} {a b : A} (d : Dec (a ≡ b)) → (decide_eq d ≡ true) ↔ (a ≡ b)
decide_eq_iff (yes p) = (λ _. p, λ _. refl)
decide_eq_iff (no n) = (λ h. absurd (cc), λ p. absurd (n p))

-- The equality test of an enumeration.
abbrev pub discrete_Column {ℓ} : {A : Type ℓ} → Discrete A → Column A
discrete_Column dec = record {
  equals = λ a b. decide_eq (dec a b);
  equals_iff = λ a b. decide_eq_iff (dec a b);
}

pub option_equals {ℓ} : {A : Type ℓ} ⦃e : Column A⦄ → Option A → Option A → Bool
option_equals none none = true
option_equals (some a) (some b) = a == b
option_equals _ _ = false

pub option_equals_iff {ℓ} :
    {A : Type ℓ} ⦃e : Column A⦄ (a b : Option A) → (option_equals a b ≡ true) ↔ (a ≡ b)
unfolding option_equals
option_equals_iff none none = (λ _. refl, λ _. refl)
option_equals_iff none (some b) = (λ h. cc, λ h. cc)
option_equals_iff (some a) none = (λ h. cc, λ h. cc)
option_equals_iff ⦃e⦄ (some a) (some b) =
    (λ h. cc ((e.equals_iff a b).0 h), λ h. (e.equals_iff a b).1 (cc))

instance abbrev pub option_Column {ℓ} : {A : Type ℓ} ⦃e : Column A⦄ → Column (Option A)
unfolding option_equals
option_Column = record { equals = option_equals; equals_iff = option_equals_iff }

-- A test chosen by an optional value, as an optional clause of a WHERE.
abbrev pub matches {ℓ} : {A : Type ℓ} ⦃e : Column A⦄ → Option A → A → Bool
matches none a = true
matches (some b) a = a == b
