-- ===== src/Base/Results.antt =====
-- Go's `error` values by the class that the code tests for (errdefs, garm-provider-common's errors),
-- without their texts, and results of fallible functions.
use mathlib.Core.Path.{◌≡◌, refl}
use mathlib.Core.Logic.{◌↔◌}
use native.Mathlib.Omega.{arith}
use mathlib.Core.Bool.{Bool, true, false}
use mathlib.Core.List.{List, [], ◌∷◌}
use mathlib.Core.Option.{Option, none, some}

-- `failed` is an error of no class; `both` is a value of `errors.Join` over several.
pub data Error : Type 0 where
  failed not_found conflict forbidden duplicate instance_not_found : Error
  both : Error → Error → Error

pub data Result {ℓ} (A : Type ℓ) : Type ℓ where
  ok : A → Result A
  err : Error → Result A

-- The early return after each fallible call, `if err != nil { return …, err }`.
infixl 5 ◌>>=◌
abbrev pub ◌>>=◌ {ℓ κ} : {S : Type ℓ} {T : Type κ} → Result S → (S → Result T) → Result T
err failure >>= next = err failure
ok value >>= next = next value

-- The same for a call that passes a state on.
abbrev pub on_ok {ℓ κ ι} :
    {S : Type ℓ} {T : Type κ} {W : Type ι} → Result S → W → (S → Result T × W) → Result T × W
on_ok (err failure) w next = (err failure, w)
on_ok (ok value) w next = next value

-- `if !test { return fmt.Errorf(…) }`
abbrev pub require : Bool → Result (Unit {0})
require true = ok tt
require false = err failed

infixl 5 ◌>>◌
abbrev pub ◌>>◌ {ℓ} : {T : Type ℓ} → Result (Unit {0}) → Result T → Result T
check >> next = check >>= λ _. next

-- errors.Join drops nil errors, and is nil if all are.
abbrev pub join : List Error → Option Error
join [] = none
join (e ∷ es) = elim (join es) [ none ↦ some e | some f ↦ some (both e f) ]

abbrev pub returned {ℓ} : {A : Type ℓ} → A → Option Error → Result A
returned a none = ok a
returned a (some e) = err e

pub require_two : (a b : Bool) → ((require a >> require b) ≡ ok tt) ↔ ((a ≡ true) × (b ≡ true))
require_two a b = ground arith

-- What a chain that succeeds has passed.
pub bind_ok {ℓ κ} :
    {S : Type ℓ} {T : Type κ} (call : Result S) (next : S → Result T) (last : T)
    → (call >>= next) ≡ ok last
    → (s : S) × (call ≡ ok s) × (next s ≡ ok last)
bind_ok (err e) next last h = ground (arith, h)
bind_ok (ok s) next last h = (s, refl, h)

pub require_ok : (t : Bool) (u : Unit {0}) → require t ≡ ok u → t ≡ true
require_ok true u h = refl
require_ok false u h = ground arith

pub bind_elim {ℓ κ ι} :
    {A : Type ℓ} {B : Type κ} {P : Type ι} {m : Result A} {f : A → Result B} {b : B}
    → (m >>= f) ≡ ok b
    → ((a : A) → m ≡ ok a → f a ≡ ok b → P)
    → P
bind_elim {m = m} {f = f} {b = b} h k = let (a, e, h') = bind_ok m f b h in k a e h'
