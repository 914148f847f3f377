-- ===== src/Base/Texts.antt =====
-- What the code uses of Go's `strings` and `strconv`. Letters are lowered in ASCII only.
pub mod Laws
pub mod Decimals
use Prim.Native.String.{char_at, count}
use Prim.Native.Nat.{ℕ, zero, suc, ◌+◌, ◌-◌, ◌*◌, ◌/◌, ◌%◌}
use Prim.Native.Char.{Char, code}
use Prim.Native.String.{String}
use mathlib.Core.Path.{◌≡◌, refl}
use mathlib.Core.Bool.{Bool, true, false, ◌&&◌, ◌||◌, not}
use mathlib.Core.Option.{Option, none, some}
use mathlib.Core.List.{List, [], ◌∷◌}
use text.Mathlib.Text.{◌==◌}
use garm_provider_docker.Base.Tests.{if◌then◌else◌, leb, eqb}

abbrev pub between : ℕ → ℕ → ℕ → Bool
between lo hi n = leb lo n && leb n hi

abbrev pub is_digit : Char → Bool
is_digit c = between b'0' b'9' (code c)

-- The characters that strings.TrimSpace trims, of ASCII.
abbrev pub is_space : Char → Bool
is_space c = between 9 13 (code c) || eqb (code c) 32

abbrev lower_char : Char → Char
lower_char c =
    if between b'A' b'Z' (code c) then char_at "abcdefghijklmnopqrstuvwxyz" (code c - b'A') else c

abbrev upper_char : Char → Char
upper_char c =
    if between b'a' b'z' (code c) then char_at "ABCDEFGHIJKLMNOPQRSTUVWXYZ" (code c - b'a') else c

-- strings.Map
unfoldable pub map_text : (Char → Char) → String → String
map_text f String.[] = String.[]
map_text f (String.◌∷◌ c s) = String.◌∷◌ (f c) (map_text f s)

unfoldable pub to_lower : String → String
unfolding map_text
to_lower s = map_text lower_char s

unfoldable pub to_upper : String → String
unfolding map_text
to_upper s = map_text upper_char s

-- strings.TrimLeftFunc and strings.TrimRightFunc
unfoldable pub trim_left : (Char → Bool) → String → String
trim_left p String.[] = String.[]
trim_left p (String.◌∷◌ c s) = let rest = trim_left p s in if p c then rest else String.◌∷◌ c s

unfoldable pub trim_right : (Char → Bool) → String → String
trim_right p String.[] = String.[]
trim_right p (String.◌∷◌ c s) =
    let rest = trim_right p s in if rest == "" && p c then String.[] else String.◌∷◌ c rest

unfoldable pub trim_space : String → String
unfolding trim_left trim_right
trim_space s = trim_right is_space (trim_left is_space s)

abbrev pub is_char : ℕ → Char → Bool
is_char n c = eqb (code c) n

-- strings.CutPrefix
unfoldable pub strip_prefix : String → String → Option String
strip_prefix String.[] s = some s
strip_prefix (String.◌∷◌ p ps) String.[] = none
strip_prefix (String.◌∷◌ p ps) (String.◌∷◌ c s) =
    let rest = strip_prefix ps s in if eqb (code p) (code c) then rest else none

unfoldable pub has_prefix : String → String → Bool
unfolding strip_prefix
has_prefix s p = elim (strip_prefix p s) [ none ↦ false | some _ ↦ true ]

unfoldable pub trim_prefix : String → String → String
unfolding strip_prefix
trim_prefix s p = elim (strip_prefix p s) [ none ↦ s | some r ↦ r ]

-- The text in front of a suffix.
unfoldable pub strip_suffix : String → String → Option String
strip_suffix suffix String.[] = if suffix == "" then some "" else none
strip_suffix suffix (String.◌∷◌ c s) =
    let rest = strip_suffix suffix s in
    if suffix == String.◌∷◌ c s
    then some ""
    else elim rest [ none ↦ none | some r ↦ some (String.◌∷◌ c r) ]

unfoldable pub has_suffix : String → String → Bool
unfolding strip_suffix
has_suffix s suffix = elim (strip_suffix suffix s) [ none ↦ false | some _ ↦ true ]

unfoldable pub trim_suffix : String → String → String
unfolding strip_suffix
trim_suffix s suffix = elim (strip_suffix suffix s) [ none ↦ s | some r ↦ r ]

-- strings.Cut: around the first occurrence of a separator.
unfoldable pub cut : String → String → Option (String × String)
unfolding strip_prefix
cut sep String.[] = elim (strip_prefix sep "") [ none ↦ none | some r ↦ some ("", r) ]
cut sep (String.◌∷◌ c s) =
    let rest = cut sep s in
    elim (strip_prefix sep (String.◌∷◌ c s)) [
      | none ↦ elim rest [ none ↦ none | some (a, b) ↦ some (String.◌∷◌ c a, b) ]
      | some r ↦ some ("", r)
    ]

unfoldable pub contains_text : String → String → Bool
unfolding cut
contains_text s sep = elim (cut sep s) [ none ↦ false | some _ ↦ true ]

-- strings.Split at a single character: one more piece than there are separators.
unfoldable pub split_on : (Char → Bool) → String → List String
split_on p String.[] = "" ∷ []
split_on p (String.◌∷◌ c s) =
    let rest = split_on p s in
    if p c
    then "" ∷ rest
    else elim rest [ [] ↦ String.◌∷◌ c "" ∷ [] | piece ∷ pieces ↦ String.◌∷◌ c piece ∷ pieces ]

abbrev non_empty : List String → List String
non_empty [] = []
non_empty (a ∷ rest) = if a == "" then non_empty rest else a ∷ non_empty rest

-- strings.Fields
unfoldable pub fields : String → List String
unfolding split_on
fields s = non_empty (split_on is_space s)

-- strings.ContainsAny, for a set of characters given as a test
unfoldable pub any_char : (Char → Bool) → String → Bool
any_char p String.[] = false
any_char p (String.◌∷◌ c s) = p c || any_char p s

unfoldable pub all_chars : (Char → Bool) → String → Bool
all_chars p String.[] = true
all_chars p (String.◌∷◌ c s) = p c && all_chars p s

-- strconv.Itoa of a number that is not negative; the number itself is fuel enough.
unfoldable itoa_loop : ℕ → ℕ → String → String
itoa_loop zero n acc = acc
itoa_loop (suc fuel) n acc =
    let digits = String.◌∷◌ (char_at "0123456789" (n % 10)) acc in
    let rest = itoa_loop fuel (n / 10) digits in if leb n 9 then digits else rest

unfoldable pub itoa : ℕ → String
unfolding itoa_loop
itoa n = itoa_loop (suc n) n ""

-- A decimal number with no sign: `none` on an empty text or another character.
unfoldable decimal_loop : ℕ → String → Option ℕ
decimal_loop acc String.[] = some acc
decimal_loop acc (String.◌∷◌ c s) =
    let rest = decimal_loop (acc * 10 + (code c - b'0')) s in if is_digit c then rest else none

unfoldable pub decimal : String → Option ℕ
unfolding decimal_loop
decimal String.[] = none
decimal (String.◌∷◌ c s) = decimal_loop 0 (String.◌∷◌ c s)

abbrev pub max_uint64 : ℕ
max_uint64 = 18446744073709551615

abbrev pub max_int64 : ℕ
max_int64 = 9223372036854775807

abbrev pub in_uint64 : Option ℕ → Option ℕ
in_uint64 none = none
in_uint64 (some n) = if leb n max_uint64 then some n else none

-- strconv.ParseUint(s, 10, 64)
unfoldable pub parse_uint : String → Option ℕ
parse_uint s = in_uint64 (decimal s)

texts_examples :
    (to_lower "My-Runner_7" ≡ "my-runner_7")
    × (trim_space " \ta b \n" ≡ "a b")
    × (trim_suffix "acme/repo.git" ".git" ≡ "acme/repo")
    × (cut "://" "https://github.com" ≡ some ("https", "github.com"))
    × (itoa 10080 ≡ "10080")
    × (parse_uint "18446744073709551616" ≡ none)
    × (parse_uint "007" ≡ some 7)
unfolding to_lower trim_space trim_suffix cut itoa parse_uint decimal
texts_examples = (refl, refl, refl, refl, refl, refl, refl)
