-- ===== src/Base/Maps.antt =====
-- A `BTreeMap` from strings: its entries in the order of their keys, and its operations.
use Prim.Native.String.{String, compare}
use text.Mathlib.Text.{is_lt}
use mathlib.Core.Path.{◌≡◌, refl, sym, ap, ◌∙◌, subst}
use mathlib.Core.Logic.{◌≢◌, ◌↔◌, inl, inr}
use mathlib.Core.Bool.{Bool, true, false, not}
use mathlib.Core.Option.{Option, none, some}
use mathlib.Core.List.{List, [], ◌∷◌, map}
use native.Mathlib.Omega.{arith}
use flowlite.Base.Tests.{if◌then◌else◌, Bool-cases}
use flowlite.Base.Columns.{◌==◌, string_Column}
use flowlite.Base.Lists.{All, In, any, filter, head?}

-- The first of two answers.
abbrev pub or_else : {A : Type 0} → Option A → Option A → Option A
or_else (some a) o = some a
or_else none o = o

pub or_else-eq-none :
    {A : Type 0} (o p : Option A) → (or_else o p ≡ none) ↔ ((o ≡ none) × (p ≡ none))
or_else-eq-none none p = (λ h. (refl, h), λ h. h.1)
or_else-eq-none (some a) p = (λ h. cc, λ h. cc)

-- The first answer that some item gives.
abbrev pub find_map : {A B : Type 0} → (A → Option B) → List A → Option B
find_map f [] = none
find_map f (x ∷ xs) = or_else (f x) (find_map f xs)

pub head-filter :
    {A : Type 0} (p : A → Bool) (xs : List A) {x : A}
    → head? (filter p xs) ≡ some x
    → In x xs × (p x ≡ true)
head-filter p [] e = cc
head-filter p (y ∷ ys) e = elim (Bool-cases (p y)) [
  | inl kept ↦ let same : y ≡ _ = cc (rw kept at e) in (inl same, subst (λ z. p z ≡ true) same kept)
  | inr dropped ↦ let (m, h) = head-filter p ys (rw dropped at e) in (inr m, h)
]

pub find_map-eq-none :
    {A B : Type 0} (f : A → Option B) (xs : List A)
    → (find_map f xs ≡ none) ↔ All (λ x. f x ≡ none) xs
find_map-eq-none f [] = (λ _. tt, λ _. refl)
find_map-eq-none f (x ∷ xs) =
    let (to, from) = or_else-eq-none (f x) (find_map f xs) in
    let (later, back) = find_map-eq-none f xs in
    (λ h. ((to h).0, later (to h).1), λ h. from (h.0, back h.1))

module _ {V : Type 0} where
  unfoldable pub get : List (String × V) → String → Option V
  get [] key = none
  get (entry ∷ entries) key =
      let rest = get entries key in if entry.0 == key then some entry.1 else rest

  abbrev pub keys : List (String × V) → List String
  keys entries = map (λ entry. entry.0) entries

  -- Replaces the value of a key that is there, else puts the entry in its place by key.
  unfoldable pub put : List (String × V) → String → V → List (String × V)
  put [] key value = (key, value) ∷ []
  put (entry ∷ entries) key value =
      let rest = put entries key value in
      if entry.0 == key
      then (key, value) ∷ entries
      else if is_lt (compare key entry.0)
      then (key, value) ∷ entry ∷ entries
      else entry ∷ rest

  -- `insert` for each entry, in their order.
  abbrev pub put_all : List (String × V) → List (String × V) → List (String × V)
  put_all entries [] = entries
  put_all entries (entry ∷ others) = put_all (put entries entry.0 entry.1) others

  -- `retain` by the key, and `remove`.
  abbrev pub retain : (String → Bool) → List (String × V) → List (String × V)
  retain p entries = filter (λ entry. p entry.0) entries

  abbrev pub remove : List (String × V) → String → List (String × V)
  remove entries key = retain (λ other. not (other == key)) entries

  abbrev pub remove_all : List (String × V) → List String → List (String × V)
  remove_all entries [] = entries
  remove_all entries (key ∷ keys) = remove_all (remove entries key) keys

  -- No key has two entries.
  abbrev pub IsMap : List (String × V) → Type 0
  IsMap [] = Unit
  IsMap (entry ∷ entries) = All (λ other. other.0 ≢ entry.0) entries × IsMap entries

  get-first :
      (entry : String × V) (entries : List (String × V))
      → get (entry ∷ entries) entry.0 ≡ some entry.1
  unfolding get
  get-first entry entries = rw ((string_Column.equals_iff entry.0 entry.0).1 refl) refl

  get-next :
      (entry : String × V) (entries : List (String × V)) (key : String)
      → (entry.0 == key) ≡ false
      → get (entry ∷ entries) key ≡ get entries key
  unfolding get
  get-next entry entries key off = rw (off, get) refl

  get-tail :
      (entry : String × V) (entries others : List (String × V)) (key : String)
      → get entries key ≡ get others key
      → get (entry ∷ entries) key ≡ get (entry ∷ others) key
  unfolding get
  get-tail entry entries others key e = rw e refl

  pub get-put_same :
      (entries : List (String × V)) (key : String) (value : V)
      → get (put entries key value) key ≡ some value
  unfolding put
  get-put_same [] key value = get-first (key, value) []
  get-put_same (entry ∷ entries) key value = elim (Bool-cases (entry.0 == key)) [
    | inl same ↦ rw (same, put) (get-first (key, value) entries)
    | inr off ↦ elim (Bool-cases (is_lt (compare key entry.0))) [
      | inl before ↦ rw (off, put, before) (get-first (key, value) (entry ∷ entries))
      | inr behind ↦
          rw (off, put, behind)
            (get-next entry (put entries key value) key off ∙ get-put_same entries key value)
    ]
  ]

  pub get-put_other :
      (entries : List (String × V)) (key : String) (value : V) (other : String)
      → (key == other) ≡ false
      → get (put entries key value) other ≡ get entries other
  unfolding put
  get-put_other [] key value other h = get-next (key, value) [] other h
  get-put_other (entry ∷ entries) key value other h = elim (Bool-cases (entry.0 == key)) [
    | inl same ↦
        let e = (string_Column.equals_iff entry.0 key).0 same in
        let off : (entry.0 == other) ≡ false = rw e h in
        rw (same, put)
          (get-next (key, value) entries other h ∙ sym (get-next entry entries other off))
    | inr off ↦ elim (Bool-cases (is_lt (compare key entry.0))) [
      | inl before ↦ rw (off, put, before) (get-next (key, value) (entry ∷ entries) other h)
      | inr behind ↦
          rw (off, put, behind)
            (get-tail entry (put entries key value) entries other
              (get-put_other entries key value other h))
    ]
  ]

  pub get-put :
      (entries : List (String × V)) (key : String) (value : V) (other : String)
      → get (put entries key value) other ≡ (if key == other then some value else get entries other)
  get-put entries key value other = elim (Bool-cases (key == other)) [
    | inl same ↦
        let e = (string_Column.equals_iff key other).0 same in
        rw same (
          subst (λ k. get (put entries key value) k ≡ some value) e
            (get-put_same entries key value))
    | inr off ↦ rw off (get-put_other entries key value other off)
  ]

  -- What is absent is not found.
  pub get-absent :
      (entries : List (String × V)) (key : String)
      → All (λ entry. entry.0 ≢ key) entries
      → get entries key ≡ none
  unfolding get
  get-absent [] key h = refl
  get-absent (entry ∷ entries) key h = elim (Bool-cases (entry.0 == key)) [
    | inl same ↦ absurd (h.0 ((string_Column.equals_iff entry.0 key).0 same))
    | inr off ↦ get-next entry entries key off ∙ get-absent entries key h.1
  ]

  -- What was put last wins.
  pub get-put_all :
      (entries others : List (String × V)) (key : String)
      → IsMap others
      → get (put_all entries others) key ≡ or_else (get others key) (get entries key)
  unfolding get
  get-put_all entries [] key h = refl
  get-put_all entries (entry ∷ others) key h =
      let later = get-put_all (put entries entry.0 entry.1) others key h.1 in
      let first = get-put entries entry.0 entry.1 key in
      elim (Bool-cases (entry.0 == key)) [
        | inl same ↦
            let e = (string_Column.equals_iff entry.0 key).0 same in
            let gone =
              get-absent others key (subst (λ k. All (λ other. other.0 ≢ k) others) e h.0) in
            rw (same, get) (rw gone at later ∙ rw same at first)
        | inr off ↦ rw (off, get) (later ∙ ap (or_else (get others key)) (rw off at first))
      ]

  pub get-retain :
      (p : String → Bool) (entries : List (String × V)) (key : String)
      → get (retain p entries) key ≡ (if p key then get entries key else none)
  unfolding get
  get-retain p [] key = ground arith
  get-retain p (entry ∷ entries) key =
      let rest = get-retain p entries key in
      elim (Bool-cases (entry.0 == key)) [
        | inl same ↦
            let e = ap p ((string_Column.equals_iff entry.0 key).0 same) in
            elim (Bool-cases (p entry.0)) [
              | inl kept ↦ rw (kept, sym e ∙ kept, get, same) refl
              | inr dropped ↦ rw (dropped, sym e ∙ dropped) (rw (sym e ∙ dropped) at rest)
            ]
        | inr off ↦ elim (Bool-cases (p entry.0)) [
          | inl kept ↦ rw (kept, get, off) rest
          | inr dropped ↦ rw (dropped, get, off) rest
        ]
      ]

  pub get-remove :
      (entries : List (String × V)) (key other : String)
      → get (remove entries key) other ≡ (if other == key then none else get entries other)
  get-remove entries key other =
      let kept = get-retain (λ k. not (k == key)) entries other in
      elim (Bool-cases (other == key)) [
        | inl same ↦ rw same (rw same at kept)
        | inr off ↦ rw off (rw off at kept)
      ]

  -- A key among those that were removed is not found, and another one is as it was.
  pub get-remove_all :
      (entries : List (String × V)) (names : List String) (key : String)
      → get (remove_all entries names) key
        ≡ (if any (λ name. key == name) names then none else get entries key)
  get-remove_all entries [] key = refl
  get-remove_all entries (name ∷ names) key =
      let rest = get-remove_all (remove entries name) names key in
      let first = get-remove entries name key in
      elim (Bool-cases (key == name)) [
        | inl same ↦ rw same (rest ∙ rw (rw same at first) (ground arith))
        | inr off ↦ rw off (rest ∙ rw (rw off at first) refl)
      ]
