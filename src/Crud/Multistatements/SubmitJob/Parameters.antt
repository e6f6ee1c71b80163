-- ===== src/Crud/Multistatements/SubmitJob/Parameters.antt =====
-- What resolve_job_parameters accepts, and what the run's parameters then are.
use flowlite.Base.{
  ◌≡◌, ◌≢◌, ◌↔◌, refl, sym, ap, ◌∙◌, subst, String, true, inl, inr, none, some, List, [], ◌∷◌, All,
  get, put, put_all, keys, or_else, IsMap, get-put_all, to_ascii_uppercase, first_clash, Apart,
  first_clash-eq-none, Bool-cases, Option-cases,
}
use flowlite.JobYaml.{StringMap}
use flowlite.Crud.Multistatements.SubmitJob.{
  resolved, is_valid_parameter_name, check_distinct, check_names, apply_overrides,
  resolve_job_parameters,
}

-- What a submission must meet.
pub record IsSubmittable (declared overrides : StringMap) : Type 0 where
  pub known : All (λ entry. get declared entry.0 ≢ none) overrides
  pub valid : All (λ name. is_valid_parameter_name name ≡ true) (keys (put_all declared overrides))
  pub apart : Apart to_ascii_uppercase (keys (put_all declared overrides))

check_distinct_iff :
    (parameters result : StringMap)
    → (check_distinct parameters ≡ resolved result)
      ↔ (Apart to_ascii_uppercase (keys parameters) × (result ≡ parameters))
unfolding check_distinct
check_distinct_iff parameters result =
    let (to, from) = first_clash-eq-none to_ascii_uppercase (keys parameters) in
    elim (Option-cases (first_clash to_ascii_uppercase [] (keys parameters))) [
      | inl e ↦ rw (e, check_distinct) (λ h. (to e, cc), λ h. ap resolved (sym h.1))
      | inr (clash, e) ↦
          rw (e, check_distinct) (λ h. absurd (cc), λ h. absurd (none-ne-some (sym (from h.0) ∙ e)))
    ]
  where
    none-ne-some : {A : Type 0} {x : A} → ¬ (none ≡ some x)
    none-ne-some e = cc

check_names_iff :
    (parameters : StringMap) (names : List String) (result : StringMap)
    → (check_names parameters names ≡ resolved result) ↔ (
        All (λ name. is_valid_parameter_name name ≡ true) names
        × Apart to_ascii_uppercase (keys parameters)
        × (result ≡ parameters))
unfolding check_names
check_names_iff parameters [] result =
    let (to, from) = check_distinct_iff parameters result in
    (λ h. let (a, b) = to h in (tt, a, b), λ h. from (h.1, h.2))
check_names_iff parameters (name ∷ names) result =
    let (to, from) = check_names_iff parameters names result in
    elim (Bool-cases (is_valid_parameter_name name)) [
      | inl valid ↦
          rw (valid, check_names)
            (λ h. let (v, a, b) = to h in ((refl, v), a, b), λ h. from (h.0.1, h.1, h.2))
      | inr invalid ↦ rw (invalid, check_names) (λ h. cc, λ h. cc h.0.0)
    ]

apply_overrides_iff :
    (declared parameters overrides result : StringMap)
    → (apply_overrides declared parameters overrides ≡ resolved result) ↔ (
        All (λ entry. get declared entry.0 ≢ none) overrides
        × All (λ name. is_valid_parameter_name name ≡ true) (keys (put_all parameters overrides))
        × Apart to_ascii_uppercase (keys (put_all parameters overrides))
        × (result ≡ put_all parameters overrides))
unfolding apply_overrides
apply_overrides_iff declared parameters [] result =
    let (to, from) = check_names_iff parameters (keys parameters) result in
    (λ h. let (v, a, b) = to h in (tt, v, a, b), λ h. from (h.1, h.2, h.3))
apply_overrides_iff declared parameters ((name, value) ∷ overrides) result =
    let (to, from) = apply_overrides_iff declared (put parameters name value) overrides result in
    elim (Option-cases (get declared name)) [
      | inl missing ↦ rw (missing, apply_overrides) (λ h. cc, λ h. absurd (h.0.0 refl))
      | inr (_, found) ↦
          rw (found, apply_overrides)
            (
              λ h. let (k, v, a, b) = to h in ((λ e. cc, k), v, a, b),
              λ h. from (h.0.1, h.1, h.2, h.3),
            )
    ]

-- resolve_job_parameters gives parameters exactly where each override is declared, each name is a valid
-- one and no two names are the same in upper case. Each parameter then has the override's value, or the
-- declared one where there is no override.
pub resolve_job_parameters-IsSubmittable :
    (declared overrides : StringMap)
    → IsMap overrides
    → (((parameters : StringMap) × (resolve_job_parameters declared overrides
            ≡ resolved parameters))
        ↔ IsSubmittable declared overrides)
      × ((parameters : StringMap) (name : String)
          → resolve_job_parameters declared overrides ≡ resolved parameters
          → get parameters name ≡ or_else (get overrides name) (get declared name))
unfolding resolve_job_parameters
resolve_job_parameters-IsSubmittable declared overrides m =
    let all = put_all declared overrides in
    (
      (
        λ h.
            let (known, valid, apart, _) =
              (apply_overrides_iff declared declared overrides h.0).0 h.1 in
            record { known = known; valid = valid; apart = apart },
        λ h. (
          all,
          (apply_overrides_iff declared declared overrides all).1 (h.known, h.valid, h.apart, refl),
        ),
      ),
      λ parameters name h.
          let (_, _, _, same) = (apply_overrides_iff declared declared overrides parameters).0 h in
          ap (λ p. get p name) same ∙ get-put_all declared overrides name m,
    )

-- What was accepted has no two names that are the same in upper case.
pub resolve_job_parameters-Apart :
    (declared overrides parameters : StringMap)
    → resolve_job_parameters declared overrides ≡ resolved parameters
    → Apart to_ascii_uppercase (keys parameters)
unfolding resolve_job_parameters
resolve_job_parameters-Apart declared overrides parameters h =
    let (_, _, apart, same) = (apply_overrides_iff declared declared overrides parameters).0 h in
    subst (λ p. Apart to_ascii_uppercase (keys p)) (sym same) apart
