-- ===== src/Limits.antt =====
-- src/shared/limits.rs: what the front ends show of the limits.
use flowlite.Base.{
  ℕ, leb, String, Bool, true, false, not, ◌&&◌, ◌||◌, Option, none, some, List, [], ◌∷◌, ◌≡◌, refl,
  sym, ap, ◌∙◌, map, head?, filter, ◌==◌, nat_Column, string_Column, if◌then◌else◌, Bool-cases, inl,
  inr,
}
use flowlite.Crud.Multistatements.{claimed}
use flowlite.Orchestrator.TaskRunAttemptDispatcher
use flowlite.Orchestrator.TaskRunAttemptDispatcher.{AppConfig}

pub record LimitRow : Type 0 where
  pub name : String
  pub in_use : ℕ
  pub max : ℕ

abbrev pub named_row : List (String × ℕ) → String × ℕ → LimitRow
named_row claimed_limit_slots (name, max) = record {
  name = name;
  in_use = claimed name claimed_limit_slots;
  max = max;
}

unfoldable pub limit_rows :
    (max_running_attempts running_attempts : ℕ)
    → (concurrency_limits claimed_limit_slots : List (String × ℕ)) → List LimitRow
limit_rows max_running_attempts running_attempts concurrency_limits claimed_limit_slots =
    record { name = "global"; in_use = running_attempts; max = max_running_attempts }
    ∷ map (named_row claimed_limit_slots) concurrency_limits

unfoldable pub is_full : LimitRow → Bool
is_full row = not (row.max == 0) && leb row.max row.in_use

-- The sentence, by its number.
unfoldable pub waiting_note : ℕ → Option ℕ
waiting_note waiting_attempts = if waiting_attempts == 0 then none else some waiting_attempts

abbrev pub full_row : Option LimitRow → Bool
full_row none = false
full_row (some row) = is_full row

-- Whether the row of a name is shown as full.
abbrev pub shown_full : String → List LimitRow → Bool
shown_full name rows = full_row (head? (filter (λ row. row.name == name) rows))

abbrev with_row : List (String × ℕ) → Option (String × ℕ) → Option LimitRow
with_row slots none = none
with_row slots (some limit) = some (named_row slots limit)

module _ (slots : List (String × ℕ)) (p : String × ℕ → Bool) (q : LimitRow → Bool) where
  head-filter :
      ((l : String × ℕ) → q (named_row slots l) ≡ p l)
      → (limits : List (String × ℕ))
      → head? (filter q (map (named_row slots) limits)) ≡ with_row slots (head? (filter p limits))
  head-filter same [] = refl
  head-filter same (l ∷ limits) = elim (Bool-cases (p l)) [
    | inl e ↦ let f = same l ∙ e in rw (e, f) refl
    | inr e ↦ let f = same l ∙ e in rw (e, f) (head-filter same limits)
  ]

  abbrev passes : Option (String × ℕ) → Bool
  passes none = true
  passes (some l) = p l

  found_passes : (limits : List (String × ℕ)) → passes (head? (filter p limits)) ≡ true
  found_passes [] = refl
  found_passes (l ∷ limits) = elim (Bool-cases (p l)) [
    | inl e ↦ rw (e, e) refl
    | inr e ↦ rw e (found_passes limits)
  ]

named_rows-is_full :
    (limit : String) (limits slots : List (String × ℕ))
    → shown_full limit (map (named_row slots) limits)
      ≡ TaskRunAttemptDispatcher.is_full slots (head? (filter (λ l. l.0 == limit) limits)) limit
unfolding is_full
named_rows-is_full limit limits slots =
    ap full_row
      (head-filter slots (λ l. l.0 == limit) (λ row. row.name == limit) (λ l. refl) limits)
    ∙ by_found (head? (filter (λ l. l.0 == limit) limits)) refl
  where
    by_found :
        (found : Option (String × ℕ))
        → head? (filter (λ l. l.0 == limit) limits) ≡ found
        → full_row (with_row slots found) ≡ TaskRunAttemptDispatcher.is_full slots found limit
    by_found none e = refl
    by_found (some (name, max)) e =
        let same : name ≡ limit = (string_Column.equals_iff name limit).0 (
          sym (ap (passes slots (λ l. l.0 == limit) (λ row. row.name == limit)) e)
          ∙ found_passes slots (λ l. l.0 == limit) (λ row. row.name == limit) limits) in
        rw same refl

or_false : (b : Bool) → b ≡ (b || false)
or_false true = refl
or_false false = refl

-- A limit that is not named global is shown as full exactly where TaskRunAttemptDispatcher keeps an
-- attempt that claims it queued, by the same limits and slots.
pub limit_rows-is_full :
    (config : AppConfig) (running : ℕ) (limit : String) (slots : List (String × ℕ))
    → ("global" == limit) ≡ false
    → shown_full limit
        (limit_rows config.max_running_attempts running config.concurrency_limits slots)
      ≡ TaskRunAttemptDispatcher.any_full config (limit ∷ []) slots
unfolding limit_rows
limit_rows-is_full config running limit slots e = rw e (
    named_rows-is_full limit config.concurrency_limits slots
    ∙ or_false (
        TaskRunAttemptDispatcher.is_full slots
          (head? (filter (λ l. l.0 == limit) config.concurrency_limits)) limit))
