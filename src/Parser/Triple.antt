-- ===== src/Parser/Triple.antt =====
-- Runs of bytes that are handled without a fault: from a state with one property to a state with
-- another.
use mathlib.Core.Path.{subst}
use mathlib.Core.List.{append-nil, append_assoc}
use industrial_control.Prelude.{
  ℕ, suc, ◌+◌, ◌≤◌, ◌<◌, ◌≡◌, ◌≢◌, sym, [], ◌∷◌, ◌++◌, arith, Bytes, length, All, length-append,
}
use industrial_control.Outcome.{Outcome, ok, fault, ◌>>=◌, Ensures}
use industrial_control.Parser.State.{HeaderState, Env, Engine}
use industrial_control.Parser.Header.{dispatch, step, parse_bytes}

-- The code goes on, in a state with this property.
abbrev pub Yields : (Engine → Type 0) → Outcome Engine → Type 0
Yields P (ok s) = P s
Yields P (fault e) = ⊥

pub Yields-bind :
    (P Q : Engine → Type 0) (m : Outcome Engine) (f : Engine → Outcome Engine)
    → Yields P m
    → ((s : Engine) → P s → Yields Q (f s))
    → Yields Q (m >>= f)
Yields-bind P Q (ok s) f p next = next s p
Yields-bind P Q (fault e) f p next = absurd p

pub Yields-mono :
    (P Q : Engine → Type 0) (m : Outcome Engine)
    → ((s : Engine) → P s → Q s)
    → Yields P m
    → Yields Q m
Yields-mono P Q (ok s) f p = f s p
Yields-mono P Q (fault e) f p = absurd p

-- Where the code goes on, what it ensures holds too.
pub Yields-Ensures :
    (P Q : Engine → Type 0) (m : Outcome Engine)
    → Yields P m
    → Ensures Q m
    → Yields (λ s. P s × Q s) m
Yields-Ensures P Q (ok s) p q = (p, q)
Yields-Ensures P Q (fault e) p q = absurd p

-- One byte, then the others.
pub then_bytes :
    (P Q : Engine → Type 0) (env : ℕ → Env) (i c : ℕ) (cs : Bytes) (s : Engine)
    → Yields P (step (env i) c s)
    → ((t : Engine) → P t → Yields Q (parse_bytes env (suc i) cs t))
    → Yields Q (parse_bytes env i (c ∷ cs) s)
unfolding parse_bytes
then_bytes P Q env i c cs s p next =
    Yields-bind P Q (step (env i) c s) (parse_bytes env (suc i) cs) p next

-- A byte is handled by the handler of the state.
pub at_state :
    (Q : Engine → Type 0) (q : HeaderState) (env : Env) (c : ℕ) (s : Engine)
    → s.header_state ≡ q
    → Yields Q (dispatch q env c s)
    → Yields Q (step env c s)
at_state Q q env c s e y = subst (λ p. Yields Q (dispatch p env c s)) (sym e) y

-- From a state with `P`, the bytes lead to a state with `Q`, whatever the system answers.
abbrev pub Runs : (Engine → Type 0) → Bytes → (Engine → Type 0) → Type 0
Runs P cs Q = (env : ℕ → Env) (i : ℕ) (s : Engine) → P s → Yields Q (parse_bytes env i cs s)

pub Runs_byte :
    (P Q : Engine → Type 0) (c : ℕ)
    → ((env : Env) (s : Engine) → P s → Yields Q (step env c s))
    → Runs P (c ∷ []) Q
unfolding parse_bytes
Runs_byte P Q c h env i s p =
    Yields-bind Q Q (step (env i) c s) (parse_bytes env (suc i) []) (h (env i) s p) (λ t q. q)

Yields-append :
    (Q R : Engine → Type 0) (env : ℕ → Env) (i : ℕ) (xs ys : Bytes) (s : Engine)
    → Yields Q (parse_bytes env i xs s)
    → ((j : ℕ) (t : Engine) → Q t → Yields R (parse_bytes env j ys t))
    → Yields R (parse_bytes env i (xs ++ ys) s)
unfolding parse_bytes
Yields-append Q R env i [] ys s h next = next i s h
Yields-append Q R env i (c ∷ xs) ys s h next =
    after (step (env i) c s) h (λ t q. Yields-append Q R env (suc i) xs ys t q next)
  where
    after :
        (m : Outcome Engine)
        → Yields Q (m >>= parse_bytes env (suc i) xs)
        → ((t : Engine)
            → Yields Q (parse_bytes env (suc i) xs t)
            → Yields R (parse_bytes env (suc i) (xs ++ ys) t))
        → Yields R (m >>= parse_bytes env (suc i) (xs ++ ys))
    after (ok t) q rest = rest t q
    after (fault e) q rest = absurd q

pub Runs-append :
    (P Q R : Engine → Type 0) (xs ys : Bytes) → Runs P xs Q → Runs Q ys R → Runs P (xs ++ ys) R
Runs-append P Q R xs ys first second env i s p =
    Yields-append Q R env i xs ys s (first env i s p) (λ j t q. second env j t q)

pub Runs-mono :
    (P Q R : Engine → Type 0) (cs : Bytes) → ((s : Engine) → Q s → R s) → Runs P cs Q → Runs P cs R
Runs-mono P Q R cs f h env i s p = Yields-mono Q R (parse_bytes env i cs s) f (h env i s p)

-- Bytes that are no `stop` come in one by one, as long as there is room.
pub Runs_collect :
    (P : Bytes → Engine → Type 0) (stop room : ℕ)
    → ((got : Bytes) (c : ℕ)
        → c ≢ stop
        → length got < room
        → (env : Env) (s : Engine) → P got s
        → Yields (P (got ++ c ∷ [])) (step env c s))
    → (cs got : Bytes) → All (λ c. c ≢ stop) cs
    → length got + length cs ≤ room
    → Runs (P got) cs (P (got ++ cs))
unfolding parse_bytes
Runs_collect P stop room store [] got a fits env i s p = subst (λ r. P r s) (sym (append-nil got)) p
Runs_collect P stop room store (c ∷ cs) got a fits env i s p =
    then_bytes (P (got ++ c ∷ [])) (P (got ++ c ∷ cs)) env i c cs s
      (store got c a.0 (omega arith) (env i) s p)
      (λ t q.
        subst (λ r. Yields (P r) (parse_bytes env (suc i) cs t)) (append_assoc got (c ∷ []) cs)
          (Runs_collect P stop room store cs (got ++ c ∷ []) a.1
            (omega (arith, length-append {0} got (c ∷ []))) env (suc i) t q))
