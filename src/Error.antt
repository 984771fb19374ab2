-- ===== src/Error.antt =====
-- `CoreError` and `CoreResult` of crates/core/src/error.rs, with the cases that the modelled code
-- makes. A message's wording is kept only where the code builds it from its data.
use rind.Prelude.{ℕ, Option, none, some, ◌≡◌, refl, ◌⊎◌, inl, inr}
use rind.Text.{Text}

pub data CoreError : Type 0 where
  -- `Custom` of an end of file inside `read_exact`
  unexpected_eof : CoreError
  -- `Custom` of a failed read of the file of that name
  failed_to_read : Text → CoreError
  -- `Custom("too many permissions for …")` with the user's or group's name and number
  too_many_permissions : Text → ℕ → CoreError
  duplicate_permissions : ℕ → Text → CoreError
  not_found : Text → Text → CoreError
  -- `Custom` of the text that a payload's parser gives
  custom : Text → CoreError
  runtime_stopped : CoreError
  -- `not_found` of the text of a number
  not_found_id : Text → ℕ → CoreError
  invalid_state : Text → CoreError
  persistence_error : Text → CoreError
  -- `PersistenceError("decode failed: unsupported snapshot version …")`
  unsupported_version : ℕ → CoreError
  missing_instances : Text → CoreError
  metadata_not_found : Text → CoreError
  missing_field : Text → CoreError
  -- the fields are the text of the caller and the name of the type
  type_mismatch : CoreError
  double_key : CoreError
  unknown : CoreError
  permission_denied : CoreError

pub data CoreResult {ℓ} (A : Type ℓ) : Type ℓ where
  ok : A → CoreResult A
  err : CoreError → CoreResult A

-- The operator `?`: an error ends the chain.
infixl 5 ◌>>=◌
abbrev pub ◌>>=◌ {ℓ κ} :
    {S : Type ℓ} {T : Type κ} → CoreResult S → (S → CoreResult T) → CoreResult T
err e >>= next = err e
ok x >>= next = next x

-- `ok_or`
abbrev pub ok_or {ℓ} : {A : Type ℓ} → CoreError → Option A → CoreResult A
ok_or e none = err e
ok_or e (some a) = ok a

-- Both steps of a successful chain have succeeded.
pub >>=-eq-ok {ℓ κ} :
    {S : Type ℓ} {T : Type κ} (m : CoreResult S) (next : S → CoreResult T) {y : T}
    → (m >>= next) ≡ ok y
    → (x : S) × (m ≡ ok x) × (next x ≡ ok y)
>>=-eq-ok (ok a) f h = (a, refl, h)
>>=-eq-ok (err e) f h = cc

-- To split on a result and keep the equation.
pub CoreResult-cases {ℓ} :
    {A : Type ℓ} (r : CoreResult A) → ((e : CoreError) × (r ≡ err e)) ⊎ ((a : A) × (r ≡ ok a))
CoreResult-cases (err e) = inl (e, refl)
CoreResult-cases (ok a) = inr (a, refl)
