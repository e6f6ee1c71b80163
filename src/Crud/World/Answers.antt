-- ===== src/Crud/World/Answers.antt =====
-- Rules for what the answer of a reading action says of the tables and the clock.
use flowlite.Base.{
  ℕ, Bool, true, false, ◌≡◌, refl, ap, subst, Option, none, some, arith, if◌then◌else◌,
}
use flowlite.Crud.World.{
  Db, World, Action, Result, ok, err, and_then, ◌>>=◌, pure, return_early, current_ts, operation,
  query,
}
use flowlite.Crud.Statements.{required}

module _ (d : Db) (t : ℕ) where
  -- The world has these tables and this clock.
  abbrev pub Shows : World → Type 0
  Shows w = (w.db ≡ d) × (w.now ≡ t)

  abbrev pub SaysOf : {A : Type 0} → (A → Type 0) → Result A × World → Type 0
  SaysOf Q (ok a, w) = Q a × Shows w
  SaysOf Q (err e, w) = Unit

  -- Where the action answers at all, it writes nothing, and `Q` holds of the answer.
  abbrev pub Says : {A : Type 0} → Action A → (A → Type 0) → Type 0
  Says m Q = (w : World) → Shows w → SaysOf Q (m w)

  pub pure-Says : {A : Type 0} (Q : A → Type 0) (a : A) → Q a → Says (pure a) Q
  pure-Says Q a q w h = (q, h)

  pub now-Says : Says current_ts (λ a. a ≡ t)
  now-Says w h = (h.1, h)

  pub operation-Says : Says operation (λ _. Unit)
  unfolding operation
  operation-Says w h = ground arith

  and_then-Says :
      {A B : Type 0} (P : A → Type 0) (Q : B → Type 0) (x : Result A × World) (f : A → Action B)
      → SaysOf P x
      → ((a : A) → P a → Says (f a) Q)
      → SaysOf Q (and_then x f)
  and_then-Says P Q (ok a, w) f p next = next a p.0 w p.1
  and_then-Says P Q (err e, w) f p next = tt

  pub bind-Says :
      {A B : Type 0} (P : A → Type 0) (Q : B → Type 0) (m : Action A) (f : A → Action B)
      → Says m P
      → ((a : A) → P a → Says (f a) Q)
      → Says (m >>= f) Q
  bind-Says P Q m f first next w h = and_then-Says P Q (m w) f (first w h) next

  pub query-Says : {A : Type 0} (f : Db → A) → Says (query f) (λ a. a ≡ f d)
  unfolding query
  query-Says f =
      bind-Says (λ _. Unit) (λ a. a ≡ f d) operation (λ _ w. (ok (f w.db), w)) operation-Says
        (λ _ _ w h. (ap f h.0, h))

  pub required-Says : {A : Type 0} (o : Option A) → Says (required o) (λ a. o ≡ some a)
  unfolding required
  required-Says none w h = tt
  required-Says (some a) w h = (refl, h)

  pub if-Says :
      {A : Type 0} (Q : A → Type 0) (b : Bool) (m n : Action A)
      → (b ≡ true → Says m Q)
      → (b ≡ false → Says n Q)
      → Says (if b then m else n) Q
  if-Says Q true m n h k = h refl
  if-Says Q false m n h k = k refl

  all_of :
      {A I : Type 0} (Q : I → A → Type 0) (x : Result A × World)
      → I
      → ((i : I) → SaysOf (Q i) x)
      → SaysOf (λ a. (i : I) → Q i a) x
  all_of Q (ok a, w) i h = ((λ j. (h j).0), (h i).1)
  all_of Q (err e, w) i h = tt

  -- What holds of the answer for each index holds for all at once.
  pub all-Says :
      {A I : Type 0} (Q : I → A → Type 0) (m : Action A)
      → I
      → ((i : I) → Says m (Q i))
      → Says m (λ a. (i : I) → Q i a)
  all-Says Q m i h w shows = all_of Q (m w) i (λ j. h j w shows)

  weaken :
      {A : Type 0} (P Q : A → Type 0) (x : Result A × World)
      → ((a : A) → P a → Q a)
      → SaysOf P x
      → SaysOf Q x
  weaken P Q (ok a, w) f h = (f a h.0, h.1)
  weaken P Q (err e, w) f h = tt

  pub imp-Says :
      {A : Type 0} (P Q : A → Type 0) (m : Action A) → ((a : A) → P a → Q a) → Says m P → Says m Q
  imp-Says P Q m f h w shows = weaken P Q (m w) f (h w shows)

  pub return_early-Says :
      {A : Type 0} (Q : A → Type 0) (b : Bool) (a : A) (m : Action A)
      → (b ≡ true → Q a)
      → (b ≡ false → Says m Q)
      → Says (return_early b a m) Q
  return_early-Says Q true a m h k = pure-Says Q a (h refl)
  return_early-Says Q false a m h k = k refl

-- What the rules show of an answer that the action gave.
pub Says-eq-ok :
    {A : Type 0} (m : Action A) (Q : A → Type 0) (w : World) {a : A} {w' : World}
    → Says w.db w.now m Q
    → m w ≡ (ok a, w')
    → Q a
Says-eq-ok m Q w {a} {w'} says e = (subst (λ x. SaysOf w.db w.now Q x) e (says w (refl, refl))).0
