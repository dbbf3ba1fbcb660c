-- ===== src/Prelude/Result.antt =====
-- Rust's `Result`, for the errors that a caller handles. A panic is another thing: see `Panic`.
pub data Result (E A : Type 0) : Type 0 where
  ok : A → Result E A
  err : E → Result E A
