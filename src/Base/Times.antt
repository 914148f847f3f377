-- ===== src/Base/Times.antt =====
-- Go's `time` as the code uses it: instants and durations in nanoseconds, and labels that hold an
-- instant in the form of RFC 3339, which keeps whole seconds.
use Prim.Native.Nat.{ℕ, ◌*◌, ◌/◌}
use Prim.Native.String.{String}
use mathlib.Core.Path.{◌≡◌}
use mathlib.Core.Option.{Option, some}

abbrev pub second : ℕ
second = 1000000000

abbrev pub minute : ℕ
minute = 60000000000

abbrev pub hour : ℕ
hour = 3600000000000

abbrev pub day : ℕ
day = 86400000000000

-- `t.UTC().Format(time.RFC3339)` and `time.Parse(time.RFC3339, s)`.
pub record TimeFormat : Type 0 where
  pub format : ℕ → String
  pub parse : String → Option ℕ
  pub parse_format : (t : ℕ) → parse (format t) ≡ some (t / second * second)
