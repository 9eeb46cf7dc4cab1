-- ===== src/Action.antt =====
-- A method call: it reads and writes a state and returns or raises. What was written before a raise
-- stays written, so the state comes back beside the error too.
use blink_battery_benchmark.Common.{ℕ, Bool, true, false}
use blink_battery_benchmark.Text.{Text}

-- The exceptions that the modelled methods raise.
pub data Error : Type 0 where
  no_such_run no_open_phase : ℕ → Error  -- `KeyError`
  check_failed : Error  -- `sqlite3.IntegrityError`, from a CHECK clause
  empty_message bad_test_number not_snapshot_test bad_interval : Error  -- `ValueError`
  bad_config : Text → Error  -- `ValueError` of a configuration
  missing_row : Error  -- a failed `assert`
  type_error : Error  -- `TypeError`, of `hmac.compare_digest`
  not_ascii : Error  -- `UnicodeDecodeError`
  invalid_transition : Text → Error  -- `InvalidTransition`

pub data Result {ℓ} (A : Type ℓ) : Type ℓ where
  ok : A → Result A
  err : Error → Result A

abbrev pub Action {ℓ κ} : Type ℓ → Type κ → Type (ℓ ⊔ κ)
Action S A = S → Result A × S

abbrev pub Done : Type 0
Done = Unit {0}

module _ {ℓ κ} {S : Type ℓ} {A : Type κ} where
  abbrev pub pure : A → Action S A
  pure a s = (ok a, s)

  abbrev pub raise : Error → Action S A
  raise e s = (err e, s)

  abbrev pub gets : (S → A) → Action S A
  gets f s = (ok (f s), s)

  -- a pure function that may raise
  abbrev pub lift : Result A → Action S A
  lift r s = (r, s)

abbrev pub modify {ℓ} : {S : Type ℓ} → (S → S) → Action S Done
modify f s = (ok tt, f s)

module _ {ℓ} {S : Type ℓ} where
  abbrev pub continue {κ μ} : {A : Type κ} {B : Type μ} → Result A → (A → Action S B) → Action S B
  continue (ok a) f s = f a s
  continue (err e) f s = (err e, s)

infixl 5 ◌>>=◌ ◌>>◌
abbrev pub ◌>>=◌ {ℓ κ μ} :
    {S : Type ℓ} {A : Type κ} {B : Type μ} → Action S A → (A → Action S B) → Action S B
◌>>=◌ m f s = continue (m s).0 f (m s).1

abbrev pub ◌>>◌ {ℓ κ μ} :
    {S : Type ℓ} {A : Type κ} {B : Type μ} → Action S A → Action S B → Action S B
m >> k = m >>= λ _. k

-- `if test: …`
abbrev pub when {ℓ} : {S : Type ℓ} → Bool → Action S Done → Action S Done
when true m = m
when false m = pure tt

-- a block that rolls the state back if it raises
abbrev pub settle {ℓ κ} : {S : Type ℓ} {A : Type κ} → Result A → S → S → Result A × S
settle (ok a) s s' = (ok a, s')
settle (err e) s s' = (err e, s)

abbrev pub transaction {ℓ κ} : {S : Type ℓ} {A : Type κ} → Action S A → Action S A
transaction m s = settle (m s).0 s (m s).1
