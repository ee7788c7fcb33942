-- ===== src/Prelude/Results.antt =====
-- What may raise: a result, and the answer of something outside the program.

pub data Result {ℓ} (E A : Type ℓ) : Type ℓ where
  ok : A → Result E A
  err : E → Result E A

-- A call of outside code: it returns, raises the exception that its caller handles by name, or
-- raises anything else.
pub data Answer {ℓ} (E A : Type ℓ) : Type ℓ where
  returned : A → Answer E A
  raised : E → Answer E A
  unexpected : Answer E A
