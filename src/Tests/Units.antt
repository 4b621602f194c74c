-- ===== src/Tests/Units.antt =====
-- The repository's own unit tests as Boolean functions, and that they pass. What a test reads of the
-- fixture `hello_static`, of the parser and of the engine is an argument of it.
pub mod State
pub mod Syscall
pub mod Fixture
pub mod Engine
use win_vpwn.Base.{Bool, true, false, Done, Outcome, ok, error, panic}

-- `unwrap` of an operation that changes a state: the test goes on with that state.
abbrev pub unwrap {ℓ1 ℓ2} : {E : Type ℓ1} → {S : Type ℓ2} → Outcome E Done × S → (S → Bool) → Bool
unwrap (ok done, s) test = test s
unwrap (error e, s) test = false
unwrap (panic, s) test = false

-- `unwrap` of a value.
abbrev pub unwrap_value {ℓ1 ℓ2} : {E : Type ℓ1} → {A : Type ℓ2} → Outcome E A → (A → Bool) → Bool
unwrap_value (ok x) test = test x
unwrap_value (error e) test = false
unwrap_value panic test = false

abbrev pub unwrap_err {ℓ1 ℓ2} : {E : Type ℓ1} → {A : Type ℓ2} → Outcome E A → (E → Bool) → Bool
unwrap_err (ok x) test = false
unwrap_err (error e) test = test e
unwrap_err panic test = false

abbrev pub is_err {ℓ1 ℓ2} : {E : Type ℓ1} → {A : Type ℓ2} → Outcome E A → Bool
is_err r = unwrap_err r (λ e. true)

abbrev pub is_ok {ℓ1 ℓ2} : {E : Type ℓ1} → {A : Type ℓ2} → Outcome E A → Bool
is_ok r = unwrap_value r (λ x. true)
