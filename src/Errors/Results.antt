-- ===== src/Errors/Results.antt =====
-- `Result<T>` and `Result<void>` of include/ai_pipe/error.hpp. The tagged union of `Result<T>` is a data type with
-- its two members; a copy or a move of it is the same value. `value()` and `error()` are asserted to be
-- called on the member that is there.
use Prim.Native.String.{String, ◌++◌ as ◌+++◌}
use text.Mathlib.TextLemmas.{append-eq-nil_iff}
use text.Mathlib.TextEquality.{eq_iff}
use ai_pipe.Prelude.{
  Bool, true, false, not, ◌≡◌, ◌≢◌, ◌↔◌, refl, ap, arith, string_eq, eqb, if◌then◌else◌, Bool-cases,
  inl, inr,
}
use ai_pipe.Errors.Codes.{ErrorCode, ok, error_number, error_code_to_string}
use ai_pipe.Errors.Codes.Unique.{error_code_to_string-ne, code_unique}
use ai_pipe.Errors.{Error, no_error, has_code, is_ok, to_string}

pub data Result {ℓ} (A : Type ℓ) : Type ℓ where
  has_value : A → Result A
  has_error : Error → Result A

module _ {ℓ} {A : Type ℓ} where
  abbrev pub result_is_ok : Result A → Bool
  result_is_ok (has_value a) = true
  result_is_ok (has_error e) = false

  abbrev pub result_is_err : Result A → Bool
  result_is_err r = not (result_is_ok r)

  abbrev pub value_or : Result A → A → A
  value_or (has_value a) d = a
  value_or (has_error e) d = d

  abbrev pub result_error_code : Result A → ErrorCode
  result_error_code (has_value a) = ok
  result_error_code (has_error e) = e.code

  abbrev pub result_error_message : Result A → String
  result_error_message (has_value a) = ""
  result_error_message (has_error e) = to_string e

-- `Result<void>` has the error only.
pub record VoidResult : Type 0 where
  pub error : Error

unfoldable pub void_ok : VoidResult
void_ok = record { error = no_error }

unfoldable pub void_err : Error → VoidResult
void_err e = record { error = e }

unfoldable pub void_is_ok : VoidResult → Bool
void_is_ok r = is_ok r.error

pub void_ok-is_ok : void_is_ok void_ok ≡ true
unfolding void_is_ok is_ok has_code error_number void_ok no_error
void_ok-is_ok = refl

pub void_is_err : VoidResult → Bool
void_is_err r = not (void_is_ok r)

pub void_error_code : VoidResult → ErrorCode
void_error_code r = r.error.code

pub void_error_message : VoidResult → String
void_error_message r = if void_is_err r then to_string r.error else ""

name-ne : (c : ErrorCode) → error_code_to_string c ≢ ""
name-ne c h = ground (arith, error_code_to_string-ne c, eq_iff (error_code_to_string c) "")

append-ne : (s t : String) → s ≢ "" → s +++ t ≢ ""
append-ne s t ne h = ne (append-eq-nil_iff.0 h).0

to_string-ne : (e : Error) → to_string e ≢ ""
unfolding to_string
to_string-ne e = elim (Bool-cases (string_eq.same e.message "")) [
  | inl plain ↦ elim (Bool-cases (string_eq.same e.node_name "")) [
    | inl bare ↦ rw (plain, bare) (name-ne e.code)
    | inr named ↦ rw (plain, named) (append-ne _ _ (name-ne e.code))
  ]
  | inr said ↦ elim (Bool-cases (string_eq.same e.node_name "")) [
    | inl bare ↦ rw (said, bare) (append-ne _ _ (name-ne e.code))
    | inr named ↦ rw (said, named) (append-ne _ _ (append-ne _ _ (name-ne e.code)))
  ]
]

-- A `Result<T>` has an empty error message exactly when it is a success, whatever the code of its error; a
-- `Result<void>` exactly when the code of its error is `Ok`.
pub error_message_empty {ℓ} :
    {A : Type ℓ} (r : Result A) (v : VoidResult)
    → ((result_error_message r ≡ "") ↔ (result_is_ok r ≡ true))
      × ((void_error_message v ≡ "") ↔ (v.error.code ≡ ok))
unfolding void_error_message void_is_err void_is_ok is_ok has_code
error_message_empty r v = (
  elim r as (λ x. (result_error_message x ≡ "") ↔ (result_is_ok x ≡ true)) [
    | has_value a ↦ (λ h. refl, λ h. refl)
    | has_error e ↦ (λ h. absurd (to_string-ne e h), λ h. cc)
  ],
  elim (Bool-cases (eqb (error_number v.error.code) (error_number ok))) [
    | inl fine ↦ (λ h. (code_unique v.error.code ok).0.0 (ground arith), λ h. rw fine refl)
    | inr failed ↦ (
      λ h. absurd (to_string-ne v.error (ground (arith, h))),
      λ h. absurd (ground (arith, ap error_number h)),
    )
  ],
)
