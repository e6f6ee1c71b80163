-- ===== src/Base/Lists.antt =====
-- Lists filtered by Boolean tests and measured by native numbers, and predicates on lists.
use Prim.Native.Nat.{ℕ, zero, suc}
use mathlib.Core.Path.{◌≡◌, refl, subst}
use mathlib.Core.Bool.{Bool, true, false, ◌&&◌, ◌||◌}
use mathlib.Core.Option.{Option, none, some}
use mathlib.Core.Logic.{◌⊎◌, inl, inr}
use mathlib.Core.List.{List, [], ◌∷◌, ◌++◌, map}
use native.Mathlib.Omega.{arith}
use flowlite.Base.Tests.{if◌then◌else◌}

module _ {ℓ} {A : Type ℓ} where
  abbrev pub length : List A → ℕ
  length [] = 0
  length (x ∷ xs) = suc (length xs)

  -- The rows that pass a test, in their order.
  abbrev pub filter : (A → Bool) → List A → List A
  filter p [] = []
  filter p (x ∷ xs) = let rest = filter p xs in if p x then x ∷ rest else rest

  abbrev pub any : (A → Bool) → List A → Bool
  any p [] = false
  any p (x ∷ xs) = p x || any p xs

  abbrev pub all : (A → Bool) → List A → Bool
  all p [] = true
  all p (x ∷ xs) = p x && all p xs

  abbrev pub head? : List A → Option A
  head? [] = none
  head? (x ∷ xs) = some x

  abbrev pub last? : List A → Option A
  last? [] = none
  last? (x ∷ []) = some x
  last? (x ∷ y ∷ xs) = last? (y ∷ xs)

  abbrev pub take : ℕ → List A → List A
  take zero xs = []
  take (suc n) [] = []
  take (suc n) (x ∷ xs) = x ∷ take n xs

  abbrev pub drop : ℕ → List A → List A
  drop zero xs = xs
  drop (suc n) [] = []
  drop (suc n) (x ∷ xs) = drop n xs

  -- Holds of every item.
  abbrev pub All {κ} : (A → Type κ) → List A → Type κ
  All P [] = Unit
  All P (x ∷ xs) = P x × All P xs

  -- Holds of some item.
  abbrev pub Any : (A → Type 0) → List A → Type 0
  Any P [] = ⊥
  Any P (x ∷ xs) = P x ⊎ Any P xs

  -- The rows of two tables correspond in their order, each pair as `R` says.
  abbrev pub Matched : (A → A → Type 0) → List A → List A → Type 0
  Matched R [] [] = Unit
  Matched R [] (y ∷ ys) = ⊥
  Matched R (x ∷ xs) [] = ⊥
  Matched R (x ∷ xs) (y ∷ ys) = R x y × Matched R xs ys

  -- Every old row is still there, in its place, as `R` says; new rows stand behind them.
  abbrev pub Evolves : (A → A → Type 0) → List A → List A → Type 0
  Evolves R [] ys = Unit
  Evolves R (x ∷ xs) [] = ⊥
  Evolves R (x ∷ xs) (y ∷ ys) = R x y × Evolves R xs ys

module _ {A : Type 0} (R : A → A → Type 0) where
  pub Evolves-refl : ((x : A) → R x x) → (xs : List A) → Evolves R xs xs
  Evolves-refl r [] = tt
  Evolves-refl r (x ∷ xs) = (r x, Evolves-refl r xs)

  pub Evolves-trans :
      ((x y z : A) → R x y → R y z → R x z)
      → (xs ys zs : List A) → Evolves R xs ys
      → Evolves R ys zs
      → Evolves R xs zs
  Evolves-trans t [] ys zs h k = tt
  Evolves-trans t (x ∷ xs) [] zs h k = absurd h
  Evolves-trans t (x ∷ xs) (y ∷ ys) [] h k = absurd k
  Evolves-trans t (x ∷ xs) (y ∷ ys) (z ∷ zs) h k =
      (t x y z h.0 k.0, Evolves-trans t xs ys zs h.1 k.1)

  -- An update of each row, where some fact `P` is known of the rows.
  pub Evolves-map :
      {P : A → Type 0} {f : A → A}
      → ((x : A) → P x → R x (f x))
      → (xs : List A) → All P xs
      → Evolves R xs (map f xs)
  Evolves-map r [] h = tt
  Evolves-map r (x ∷ xs) h = (r x h.0, Evolves-map r xs h.1)

  pub Evolves-append : ((x : A) → R x x) → (xs ys : List A) → Evolves R xs (xs ++ ys)
  Evolves-append r [] ys = tt
  Evolves-append r (x ∷ xs) ys = (r x, Evolves-append r xs ys)

  pub Matched-refl : ((x : A) → R x x) → (xs : List A) → Matched R xs xs
  Matched-refl r [] = tt
  Matched-refl r (x ∷ xs) = (r x, Matched-refl r xs)

  pub Matched-trans :
      ((x y z : A) → R x y → R y z → R x z)
      → (xs ys zs : List A) → Matched R xs ys
      → Matched R ys zs
      → Matched R xs zs
  Matched-trans t [] [] zs h k = k
  Matched-trans t [] (y ∷ ys) zs h k = absurd h
  Matched-trans t (x ∷ xs) [] zs h k = absurd h
  Matched-trans t (x ∷ xs) (y ∷ ys) [] h k = absurd k
  Matched-trans t (x ∷ xs) (y ∷ ys) (z ∷ zs) h k =
      (t x y z h.0 k.0, Matched-trans t xs ys zs h.1 k.1)

  pub Matched-map :
      {P : A → Type 0} {f : A → A}
      → ((x : A) → P x → R x (f x))
      → (xs : List A) → All P xs
      → Matched R xs (map f xs)
  Matched-map r [] h = tt
  Matched-map r (x ∷ xs) h = (r x h.0, Matched-map r xs h.1)

  -- A fact of all old rows that each change carries over.
  pub Matched-All :
      (P : A → Type 0)
      → ((x y : A) → R x y → P x → P y)
      → (xs ys : List A) → Matched R xs ys
      → All P xs
      → All P ys
  Matched-All P k [] [] m h = tt
  Matched-All P k [] (y ∷ ys) m h = absurd m
  Matched-All P k (x ∷ xs) [] m h = absurd m
  Matched-All P k (x ∷ xs) (y ∷ ys) m h = (k x y m.0 h.0, Matched-All P k xs ys m.1 h.1)

module _ {A : Type 0} (R S : A → A → Type 0) where
  pub Matched-imp :
      ((x y : A) → R x y → S x y) → (xs ys : List A) → Matched R xs ys → Matched S xs ys
  Matched-imp k [] [] m = tt
  Matched-imp k [] (y ∷ ys) m = absurd m
  Matched-imp k (x ∷ xs) [] m = absurd m
  Matched-imp k (x ∷ xs) (y ∷ ys) m = (k x y m.0, Matched-imp k xs ys m.1)

module _ {A : Type 0} where
  pub All-of {κ} : {P : A → Type κ} → ((x : A) → P x) → (xs : List A) → All P xs
  All-of h [] = tt
  All-of h (x ∷ xs) = (h x, All-of h xs)

  pub All-map {κ μ} :
      {P : A → Type κ} (Q : A → Type μ) {f : A → A}
      → ((x : A) → P x → Q (f x))
      → (xs : List A) → All P xs
      → All Q (map f xs)
  All-map Q h [] p = tt
  All-map Q h (x ∷ xs) p = (h x p.0, All-map Q h xs p.1)

  pub All-imp {κ μ} :
      {P : A → Type κ} {Q : A → Type μ}
      → ((x : A) → P x → Q x)
      → (xs : List A) → All P xs
      → All Q xs
  All-imp h [] p = tt
  All-imp h (x ∷ xs) p = (h x p.0, All-imp h xs p.1)

  pub All-zip {κ μ ν} :
      {P : A → Type κ} {Q : A → Type μ} {R : A → Type ν}
      → ((x : A) → P x → Q x → R x)
      → (xs : List A) → All P xs
      → All Q xs
      → All R xs
  All-zip h [] p q = tt
  All-zip h (x ∷ xs) p q = (h x p.0 q.0, All-zip h xs p.1 q.1)

  pub All-append {κ} : (P : A → Type κ) (xs ys : List A) → All P xs → All P ys → All P (xs ++ ys)
  All-append P [] ys h k = k
  All-append P (x ∷ xs) ys h k = (h.0, All-append P xs ys h.1 k)

  pub all-true : (p : A → Bool) (xs : List A) → all p xs ≡ true → All (λ x. p x ≡ true) xs
  all-true p [] h = tt
  all-true p (x ∷ xs) h = (ground arith, all-true p xs (ground arith))

  pub any-false : (p : A → Bool) (xs : List A) → any p xs ≡ false → All (λ x. p x ≡ false) xs
  any-false p [] h = tt
  any-false p (x ∷ xs) h = (ground arith, any-false p xs (ground arith))

  -- A value among the items.
  abbrev pub In : A → List A → Type 0
  In x xs = Any (λ item. item ≡ x) xs

  pub All-In {κ} : (P : A → Type κ) (xs : List A) {x : A} → All P xs → In x xs → P x
  All-In P [] h m = absurd m
  All-In P (x ∷ xs) h (inl e) = subst P e h.0
  All-In P (x ∷ xs) h (inr m) = All-In P xs h.1 m

  pub All_from_In {κ} : (P : A → Type κ) (xs : List A) → ((x : A) → In x xs → P x) → All P xs
  All_from_In P [] h = tt
  All_from_In P (x ∷ xs) h = (h x (inl refl), All_from_In P xs (λ y m. h y (inr m)))
