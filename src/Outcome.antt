-- ===== src/Outcome.antt =====
-- The assert macro: a failed assertion ends the process, unless the build defines NDEBUG.
use discovery_server.Prelude.{◌≡◌, refl, inl, inr, ◌⊎◌, Bool, ◌||◌, if◌then◌else◌}

pub data Outcome {ℓ} (A : Type ℓ) : Type ℓ where
  done : A → Outcome A
  aborted : Outcome A

-- assert(cond), and what follows it.
abbrev pub assert_then {ℓ} : {A : Type ℓ} → Bool → Bool → A → Outcome A
assert_then ndebug cond a = if ndebug || cond then done a else aborted

-- What follows a step that may end the process.
infixl 10 ◌>>=◌
abbrev pub ◌>>=◌ {ℓ ℓ'} : {A : Type ℓ} {B : Type ℓ'} → Outcome A → (A → Outcome B) → Outcome B
done a >>= f = f a
aborted >>= f = aborted

pub Outcome-cases {ℓ} : {A : Type ℓ} (o : Outcome A) → ((a : A) × (o ≡ done a)) ⊎ (o ≡ aborted)
Outcome-cases (done a) = inl (a, refl)
Outcome-cases aborted = inr refl
