-- ===== src/Config/ByteSize/Bounds.antt =====
-- internal/config/bytesize.go: parsed sizes fit in an int64.
use garm_provider_docker.Base.{
  ℕ, ◌*◌, ◌/◌, ◌≤◌, String, Bool, true, false, ◌&&◌, not, Option, none, some, lookup, ltb, leb, eqb,
  ◌==◌, if◌then◌else◌, Result, ok, err, failed, ◌>>=◌, ◌≡◌, refl, arith, subst, zero, suc,
}
use native.Mathlib.Nat.{le_trans, mul-le-mul_right, div-mul-le_self}
use garm_provider_docker.Base.Texts.{trim_space, to_lower, max_int64}
use garm_provider_docker.Config.ByteSize.{
  parse_byte_size, parse_positive_byte_size, split_digits, parse_int, scaled, sized,
  byte_size_units,
}

kept : (g : Bool) (a k : ℕ) → (if g then err failed else ok a) ≡ ok k → (g ≡ false) × (a ≡ k)
kept true a k h = ground arith
kept false a k h = (refl, cc h)

product-le :
    (n m : ℕ)
    → (not (eqb n 0) && not (eqb m 0) && ltb (max_int64 / m) n) ≡ false
    → n * m ≤ max_int64
product-le zero m h = omega arith
product-le (suc n) zero h = omega arith
product-le (suc n) (suc m) h =
    le_trans (mul-le-mul_right (suc m) (below (max_int64 / suc m) (suc n) (ground (arith, h))))
      (div-mul-le_self max_int64 (suc m))
  where
    below : (a b : ℕ) → ltb a b ≡ false → b ≤ a
    below a b h = ground arith

scaled-le : (n : ℕ) (mult : Option ℕ) (k : ℕ) → scaled n mult ≡ ok k → k ≤ max_int64
scaled-le n none k h = ground arith
scaled-le n (some m) k h =
    let (g, e) = kept _ (n * m) k h in subst (λ x. x ≤ max_int64) e (product-le n m g)

sized-le : (n mult : Option ℕ) (k : ℕ) → sized n mult ≡ ok k → k ≤ max_int64
sized-le none mult k h = ground arith
sized-le (some n) mult k h = scaled-le n mult k h

-- A size that parses fits in an int64: no accepted text overflows in the multiplication by its unit.
pub parse_byte_size-le : (s : String) (n : ℕ) → parse_byte_size s ≡ ok n → n ≤ max_int64
unfolding parse_byte_size
parse_byte_size-le s n h =
    let (digits, rest) = split_digits (trim_space s) in
    let (g, e) =
      tested (digits == "")
        (sized (parse_int digits) (lookup (to_lower (trim_space rest)) byte_size_units)) n h in
    sized-le (parse_int digits) (lookup (to_lower (trim_space rest)) byte_size_units) n e
  where
    tested :
        (g : Bool) (r : Result ℕ) (n : ℕ)
        → (if g then err failed else r) ≡ ok n
        → (g ≡ false) × (r ≡ ok n)
    tested true r n h = ground arith
    tested false r n h = (refl, h)

-- A positive size that parses is at least 1 and fits in an int64.
pub parse_positive_byte_size-bounds :
    (s : String) (n : ℕ) → parse_positive_byte_size s ≡ ok n → (1 ≤ n) × (n ≤ max_int64)
unfolding parse_positive_byte_size
parse_positive_byte_size-bounds s n h =
    positive (parse_byte_size s) n (λ k e. parse_byte_size-le s k e) h
  where
    positive :
        (r : Result ℕ) (n : ℕ)
        → ((k : ℕ) → r ≡ ok k → k ≤ max_int64)
        → (r >>= λ k. if leb k 0 then err failed else ok k) ≡ ok n
        → (1 ≤ n) × (n ≤ max_int64)
    positive (err e) n b h = ground arith
    positive (ok k) n b h =
        let (g, e) = kept (leb k 0) k n h in
        (subst (λ x. 1 ≤ x) e (ground arith), subst (λ x. x ≤ max_int64) e (b k refl))
