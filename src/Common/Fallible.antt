-- ===== src/Common/Fallible.antt =====
-- A Go function that returns a value, an error or panics. The library's own errors are told apart
-- by the sentence that the source gives them.

-- `E` is the component's type of errors.
pub data Outcome (E : Type 0) (A : Type 0) : Type 0 where
  ok : A → Outcome E A
  err : E → Outcome E A
  panic : Outcome E A

infixl 5 ◌>>=◌
abbrev pub ◌>>=◌ : {E A B : Type 0} → Outcome E A → (A → Outcome E B) → Outcome E B
ok a >>= f = f a
err e >>= f = err e
panic >>= f = panic

-- `if err != nil { return fmt.Errorf("...: %w", err) }`
abbrev pub wrap_err : {E F A : Type 0} → (E → F) → Outcome E A → Outcome F A
wrap_err w (ok a) = ok a
wrap_err w (err e) = err (w e)
wrap_err w panic = panic
