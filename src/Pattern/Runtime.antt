-- ===== src/Pattern/Runtime.antt =====
-- What the formatting code calls of the standard library and of Violet's terminal and string
-- modules, as a record that the formatting functions take; and the monad of the code that may throw.
pub mod Plain
use logrin.Pattern.Error.{Result, ok, err}
use logrin.Base.{◌≡◌, refl, arith, ℕ, Bool, Option, none, some, Bytes}
use logrin.Pattern.Color.Terminal.{Rgb}
use logrin.Pattern.Segment.{SegmentKind}
use logrin.Record.{ℤ}

pub record Runtime (D : Type 0) : Type 0 where
  -- `violet::strings::Trim`
  pub trim : (ℕ → Bool) → Bytes → Bytes
  -- `violet::terminal::ColoursEnabled()`
  pub colours_enabled : Bool
  -- `RGB{ }`
  pub default_rgb : Rgb
  -- `RGB::Paint`, with the field `Foreground` as the first argument
  pub paint_rgb : Bool → Rgb → Bytes
  -- `Style::Paint` of the style that the kind turns on, and of `Style{ }`
  pub paint_style : SegmentKind → Bytes
  pub paint_reset : Bytes
  -- `violet::ToString` and `std::format` of numbers
  pub format_number : ℕ → Bytes
  pub format_int64 : ℤ → Bytes
  pub format_uint64 : ℕ → Bytes
  pub format_double : D → Bytes
  pub format_hex : ℕ → Bytes
  -- `strftime` in UTC or in local time, into a buffer of that size: what it wrote
  pub strftime_utc : ℕ → Bytes → ℕ → Bytes
  pub strftime_local : ℕ → Bytes → ℕ → Bytes
  -- the hash of `std::this_thread::get_id()`
  pub thread_hash : ℕ

-- `none` is an exception that leaves the function, or a panic.
infixl 5 ◌>>=◌
abbrev pub ◌>>=◌ {ℓ κ} : {A : Type ℓ} {B : Type κ} → Option A → (A → Option B) → Option B
none >>= f = none
some a >>= f = f a

-- `VIOLET_TRY` on a result of code that may also throw.
abbrev pub attempt {ℓ κ} :
    {A : Type ℓ} {B : Type κ} → Option (Result A) → (A → Option (Result B)) → Option (Result B)
attempt none f = none
attempt (some (err e)) f = some (err e)
attempt (some (ok a)) f = f a

pub attempt-eq-ok {ℓ κ} :
    {A : Type ℓ} {B : Type κ} (m : Option (Result A)) (f : A → Option (Result B)) {b : B}
    → attempt m f ≡ some (ok b)
    → (a : A) × (m ≡ some (ok a)) × (f a ≡ some (ok b))
attempt-eq-ok none f h = absurd (ground arith)
attempt-eq-ok (some (err e)) f h = absurd (ground arith)
attempt-eq-ok (some (ok a)) f h = (a, refl, h)
