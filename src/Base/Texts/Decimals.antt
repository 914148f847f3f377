-- ===== src/Base/Texts/Decimals.antt =====
-- Decimal numbers: reading what was printed gives the number back.
use Prim.Native.Nat.{ℕ, zero, suc, ◌+◌, ◌-◌, ◌*◌, ◌/◌, ◌%◌, ◌≤◌, ◌<◌}
use Prim.Native.Char.{code}
use Prim.Native.String.{String, char_at}
use mathlib.Core.Bool.{true}
use mathlib.Core.Option.{some}
use mathlib.Core.Path.{◌≡◌, refl, ap, sym, ◌∙◌}
use mathlib.Core.Logic.{◌≢◌, inl, inr}
use native.Mathlib.Omega.{arith}
use text.Mathlib.TextLemmas.{cons-ne-nil}
use garm_provider_docker.Base.Tests.{leb, Bool-cases, leb→le, le→leb}
use garm_provider_docker.Base.Texts.{
  is_digit, itoa, itoa_loop, decimal, decimal_loop, parse_uint, max_uint64,
}

digit-is_digit : (k : ℕ) → k ≤ 9 → is_digit (char_at "0123456789" k) ≡ true
digit-is_digit zero h = refl
digit-is_digit (suc zero) h = refl
digit-is_digit (suc (suc zero)) h = refl
digit-is_digit (suc (suc (suc zero))) h = refl
digit-is_digit (suc (suc (suc (suc zero)))) h = refl
digit-is_digit (suc (suc (suc (suc (suc zero))))) h = refl
digit-is_digit (suc (suc (suc (suc (suc (suc zero)))))) h = refl
digit-is_digit (suc (suc (suc (suc (suc (suc (suc zero))))))) h = refl
digit-is_digit (suc (suc (suc (suc (suc (suc (suc (suc zero)))))))) h = refl
digit-is_digit (suc (suc (suc (suc (suc (suc (suc (suc (suc zero))))))))) h = refl
digit-is_digit (suc (suc (suc (suc (suc (suc (suc (suc (suc (suc k)))))))))) h = ground (arith, h)

digit-code : (k : ℕ) → k ≤ 9 → code (char_at "0123456789" k) - 48 ≡ k
digit-code zero h = refl
digit-code (suc zero) h = refl
digit-code (suc (suc zero)) h = refl
digit-code (suc (suc (suc zero))) h = refl
digit-code (suc (suc (suc (suc zero)))) h = refl
digit-code (suc (suc (suc (suc (suc zero))))) h = refl
digit-code (suc (suc (suc (suc (suc (suc zero)))))) h = refl
digit-code (suc (suc (suc (suc (suc (suc (suc zero))))))) h = refl
digit-code (suc (suc (suc (suc (suc (suc (suc (suc zero)))))))) h = refl
digit-code (suc (suc (suc (suc (suc (suc (suc (suc (suc zero))))))))) h = refl
digit-code (suc (suc (suc (suc (suc (suc (suc (suc (suc (suc k)))))))))) h = omega arith

-- One more digit.
decimal_loop-digit :
    (a n : ℕ) (s : String)
    → decimal_loop a (String.◌∷◌ (char_at "0123456789" (n % 10)) s)
      ≡ decimal_loop (a * 10 + n % 10) s
unfolding decimal_loop
decimal_loop-digit a n s =
    rw (digit-is_digit (n % 10) (omega arith), digit-code (n % 10) (omega arith)) refl

decimal_loop-itoa_loop :
    (fuel n : ℕ) (acc : String)
    → n < fuel
    → decimal_loop 0 (itoa_loop fuel n acc) ≡ decimal_loop n acc
unfolding itoa_loop
decimal_loop-itoa_loop zero n acc h = ground arith
decimal_loop-itoa_loop (suc fuel) n acc h = elim (Bool-cases (leb n 9)) [
  | inl one ↦
      let small : n ≤ 9 = leb→le n 9 one in
      rw (one, decimal_loop-digit 0 n acc) (ap (λ x. decimal_loop x acc) (omega arith))
  | inr more ↦
      let large : 9 < n = ground (arith, more) in
      rw
        (
          more,
          decimal_loop-itoa_loop fuel (n / 10) _ (omega arith),
          decimal_loop-digit (n / 10) n acc,
        )
        (ap (λ x. decimal_loop x acc) (omega arith))
]

itoa_loop-not_empty : (fuel n : ℕ) (acc : String) → acc ≢ "" → itoa_loop fuel n acc ≢ ""
unfolding itoa_loop
itoa_loop-not_empty zero n acc h = h
itoa_loop-not_empty (suc fuel) n acc h = elim (Bool-cases (leb n 9)) [
  | inl one ↦ rw one (cons-ne-nil _ acc)
  | inr more ↦ rw more (itoa_loop-not_empty fuel (n / 10) _ (cons-ne-nil _ acc))
]

decimal-decimal_loop : (s : String) → s ≢ "" → decimal s ≡ decimal_loop 0 s
unfolding decimal
decimal-decimal_loop String.[] h = elim (h refl) [ ]
decimal-decimal_loop (String.◌∷◌ c s) h = refl

itoa-not_empty : (n : ℕ) → itoa n ≢ ""
unfolding itoa itoa_loop
itoa-not_empty n = elim (Bool-cases (leb n 9)) [
  | inl one ↦ rw one (cons-ne-nil _ "")
  | inr more ↦ rw more (itoa_loop-not_empty n (n / 10) _ (cons-ne-nil _ ""))
]

-- Reading a printed number gives the number back.
pub decimal-itoa : (n : ℕ) → decimal (itoa n) ≡ some n
unfolding itoa decimal_loop
decimal-itoa n =
    decimal-decimal_loop (itoa n) (itoa-not_empty n)
    ∙ decimal_loop-itoa_loop (suc n) n "" (omega arith)

-- Different numbers are printed differently.
pub itoa-injective : (m n : ℕ) → itoa m ≡ itoa n → m ≡ n
itoa-injective m n e =
    let same : some m ≡ some n = sym (decimal-itoa m) ∙ ap decimal e ∙ decimal-itoa n in cc same

-- strconv.ParseUint undoes strconv.FormatUint.
pub parse_uint-itoa : (n : ℕ) → n ≤ max_uint64 → parse_uint (itoa n) ≡ some n
unfolding parse_uint
parse_uint-itoa n h = rw (decimal-itoa n, le→leb n max_uint64 h) refl
