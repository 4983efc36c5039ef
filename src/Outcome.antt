-- ===== src/Outcome.antt =====
-- C code that either goes on in a new state or does what C leaves undefined.
use industrial_control.Prelude.{◌≡◌, refl, ◌∙◌, ap}

-- The undefined operations that the engine can reach.
pub data Fault : Type 0 where
  -- a write outside an array: `buffer[256]`, the unit test's buffer, a file name
  write_outside : Fault
  -- a read of `buffer[i]` with `i` outside `buffer[256]`
  read_outside : Fault
  -- `rewind`, `fwrite` or `fclose` on NULL
  null_stream : Fault
  -- `atoi` of a number that is no `int`
  number_outside : Fault

pub data Outcome {ℓ} (S : Type ℓ) : Type ℓ where
  fault : Fault → Outcome S
  ok : S → Outcome S

infixl 5 ◌>>=◌
abbrev pub ◌>>=◌ {ℓ κ} : {S : Type ℓ} {T : Type κ} → Outcome S → (S → Outcome T) → Outcome T
fault reason >>= next = fault reason
ok state >>= next = next state

-- A predicate of the state that the code goes on in, if it goes on.
abbrev pub Ensures {ℓ κ} : {A : Type ℓ} → (A → Type κ) → Outcome A → Type κ
Ensures P (ok a) = P a
Ensures P (fault e) = Unit

-- A bind ensures what its continuation ensures.
pub Ensures-bind {ℓ κ μ ν} :
    {A : Type ℓ} {B : Type κ} (P : A → Type μ) (Q : B → Type ν) (m : Outcome A) (f : A → Outcome B)
    → Ensures P m
    → ((a : A) → P a → Ensures Q (f a))
    → Ensures Q (m >>= f)
Ensures-bind P Q (ok a) f p next = next a p
Ensures-bind P Q (fault e) f p next = tt

-- What follows from what is ensured is ensured.
pub Ensures-mono {ℓ κ μ} :
    {A : Type ℓ} (P : A → Type κ) (Q : A → Type μ) (m : Outcome A)
    → ((a : A) → P a → Q a)
    → Ensures P m
    → Ensures Q m
Ensures-mono P Q (ok a) f p = f a p
Ensures-mono P Q (fault e) f p = tt

-- Equal steps with equal continuations.
pub bind_cong {ℓ κ} :
    {A : Type ℓ} {B : Type κ} (m n : Outcome A) (f g : A → Outcome B)
    → m ≡ n
    → ((a : A) → f a ≡ g a)
    → (m >>= f) ≡ (n >>= g)
bind_cong (ok a) n f g e next = next a ∙ ap (λ x. x >>= g) e
bind_cong (fault reason) n f g e next = ap (λ x. x >>= g) e

pub bind_assoc {ℓ κ μ} :
    {A : Type ℓ} {B : Type κ} {C : Type μ} (m : Outcome A) (f : A → Outcome B) (g : B → Outcome C)
    → ((m >>= f) >>= g) ≡ (m >>= λ a. f a >>= g)
bind_assoc (ok a) f g = refl
bind_assoc (fault e) f g = refl
