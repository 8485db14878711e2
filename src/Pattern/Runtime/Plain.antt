-- ===== src/Pattern/Runtime/Plain.antt =====
-- A runtime on which concrete patterns are formatted.
use logrin.Base.{codes, Bool, true}
use logrin.Pattern.Color.Terminal.{rgb}
use logrin.Pattern.Runtime.{Runtime}

-- A terminal without colours and a library that prints every number as `0`.
abbrev pub plain : Runtime Bool
plain = record {
  trim = λ p s. s;
  colours_enabled = true;
  default_rgb = rgb 0 0 0;
  paint_rgb = λ foreground c. codes "<";
  paint_style = λ kind. codes "[";
  paint_reset = codes "]";
  format_number = λ n. codes "0";
  format_int64 = λ n. codes "0";
  format_uint64 = λ n. codes "0";
  format_double = λ d. codes "0";
  format_hex = λ n. codes "0";
  strftime_utc = λ size f time. codes "12:00";
  strftime_local = λ size f time. codes "12:00";
  thread_hash = 7;
}
