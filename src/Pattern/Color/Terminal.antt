-- ===== src/Pattern/Color/Terminal.antt =====
-- `violet::terminal::RGB` as the program fills it: three bytes. Whether it colours the foreground
-- is an argument of its `Paint`.
use logrin.Base.{ℕ}

pub record Rgb : Type 0 where
  pub red : ℕ
  pub green : ℕ
  pub blue : ℕ

abbrev pub rgb : ℕ → ℕ → ℕ → Rgb
rgb r g b = record { red = r; green = g; blue = b }
