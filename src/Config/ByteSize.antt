-- ===== src/Config/ByteSize.antt =====
-- internal/config/bytesize.go: sizes with units.
pub mod Bounds
use garm_provider_docker.Base.{
  ℕ, ◌*◌, ◌/◌, ◌^◌, String, Bool, true, false, ◌&&◌, not, Option, none, some, List, [], ◌∷◌, lookup,
  Char, code, ltb, leb, eqb, ◌==◌, if◌then◌else◌, Result, ok, err, failed, ◌>>=◌, ◌≡◌, refl,
}
use garm_provider_docker.Base.Texts.{trim_space, to_lower, is_digit, decimal, max_int64}

abbrev pub byte_size_units : List (String × ℕ)
byte_size_units =
    ("", 1)
    ∷ ("b", 1)
    ∷ ("kb", 1000)
    ∷ ("mb", 1000000)
    ∷ ("gb", 1000000000)
    ∷ ("kib", 2 ^ 10)
    ∷ ("mib", 2 ^ 20)
    ∷ ("gib", 2 ^ 30)
    ∷ []

-- The leading digits, and what follows them.
unfoldable pub split_digits : String → String × String
split_digits String.[] = (String.[], String.[])
split_digits (String.◌∷◌ c s) =
    let (digits, rest) = split_digits s in
    if is_digit c then (String.◌∷◌ c digits, rest) else (String.[], String.◌∷◌ c s)

-- strconv.ParseInt(digits, 10, 64), of digits only.
unfoldable pub parse_int : String → Option ℕ
unfolding decimal
parse_int s = elim (decimal s) [ none ↦ none | some n ↦ if leb n max_int64 then some n else none ]

-- `if n != 0 && mult != 0 && n > math.MaxInt64/mult`
abbrev pub scaled : ℕ → Option ℕ → Result ℕ
scaled n none = err failed
scaled n (some mult) =
    if not (eqb n 0) && not (eqb mult 0) && ltb (max_int64 / mult) n
    then err failed
    else ok (n * mult)

abbrev pub sized : Option ℕ → Option ℕ → Result ℕ
sized none unit = err failed
sized (some n) unit = scaled n unit

unfoldable pub parse_byte_size : String → Result ℕ
parse_byte_size s =
    let (digits, rest) = split_digits (trim_space s) in
    if digits == ""
    then err failed
    else sized (parse_int digits) (lookup (to_lower (trim_space rest)) byte_size_units)

unfoldable pub parse_positive_byte_size : String → Result ℕ
parse_positive_byte_size s = parse_byte_size s >>= λ n. if leb n 0 then err failed else ok n

sizes_examples :
    (parse_byte_size " 8GiB " ≡ ok 8589934592)
    × (parse_byte_size "8 GB" ≡ ok 8000000000)
    × (parse_byte_size "1.5GiB" ≡ err failed)
    × (parse_byte_size "9223372036854775807GiB" ≡ err failed)
    × (parse_byte_size "-1" ≡ err failed)
    × (parse_positive_byte_size "0KB" ≡ err failed)
unfolding parse_byte_size parse_positive_byte_size split_digits parse_int trim_space to_lower
    decimal
sizes_examples = (refl, refl, refl, refl, refl, refl)
