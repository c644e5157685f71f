-- ===== src/Base/Decimal.antt =====
-- Decimal numbers: %d of fmt on a number below 10 ^ 20, and `strconv.Atoi`.
use Prim.Native.Nat.{ℕ, zero, suc, ◌+◌, ◌-◌, ◌*◌, ◌/◌, ◌%◌, ◌^◌, ◌<◌, ◌≤◌}
use mathlib.Core.Path.{◌≡◌, ◌∙◌, refl, ap}
use mathlib.Core.Bool.{Bool, true, false, ◌&&◌}
use mathlib.Core.Logic.{◌≢◌, inl, inr}
use mathlib.Core.Option.{Option, none, some}
use mathlib.Core.List.{[], ◌∷◌, ◌++◌}
use native.Mathlib.Omega.{arith}
use native.Mathlib.Nat.{pow-suc}
use tidb_fk_test.Base.Tests.{ltb, leb, ◌==◌, if◌then◌else◌, Bool-cases}
use tidb_fk_test.Base.Lists.{All, All-append}
use tidb_fk_test.Base.Ints.{ℤ, pos, negsuc}
use tidb_fk_test.Base.Strings.{Text}

-- The lowest `fuel` digits, without leading zeros.
unfoldable pub show_digits : ℕ → ℕ → Text
show_digits zero n = []
show_digits (suc fuel) n = elim (ltb n 10) [
  | true ↦ (b'0' + n) ∷ []
  | false ↦ show_digits fuel (n / 10) ++ ((b'0' + n % 10) ∷ [])
]

unfoldable pub show_nat : ℕ → Text
unfolding show_digits
show_nat n = show_digits 20 n

abbrev pub is_digit : ℕ → Bool
is_digit c = leb b'0' c && leb c b'9'

-- The value of digits behind a number, `none` where some character is no digit.
unfoldable pub digits_value : ℕ → Text → Option ℕ
digits_value n [] = some n
digits_value n (c ∷ s) =
    let rest = digits_value (n * 10 + (c - b'0')) s in if is_digit c then rest else none

abbrev pub positive : Option ℕ → Option ℤ
positive none = none
positive (some n) = if ltb n (2 ^ 63) then some (pos n) else none

abbrev pub negative : Option ℕ → Option ℤ
negative none = none
negative (some zero) = some (pos zero)
negative (some (suc n)) = if ltb n (2 ^ 63) then some (negsuc n) else none

abbrev pub some_digits : Text → Option ℕ
some_digits [] = none
some_digits (c ∷ s) = digits_value 0 (c ∷ s)

-- strconv.Atoi; `none` is a syntax error or a number out of the range of `int`.
unfoldable pub atoi : Text → Option ℤ
unfolding digits_value
atoi [] = none
atoi (c ∷ s) =
    if c == b'-'
    then negative (some_digits s)
    else if c == b'+'
    then positive (some_digits s)
    else positive (some_digits (c ∷ s))

-- %d on an `int`.
unfoldable pub show_int : ℤ → Text
unfolding show_nat
show_int (pos n) = show_nat n
show_int (negsuc n) = b'-' ∷ show_nat (suc n)

digits_value-snoc :
    (n c m : ℕ) (s : Text)
    → digits_value n s ≡ some m
    → is_digit c ≡ true
    → digits_value n (s ++ c ∷ []) ≡ some (m * 10 + (c - b'0'))
unfolding digits_value
digits_value-snoc n c m [] h d = ground (arith, h, d)
digits_value-snoc n c m (b ∷ s) h d = elim (Bool-cases (is_digit b)) [
  | inl e ↦ rw e (digits_value-snoc (n * 10 + (b - b'0')) c m s (rw e at h) d)
  | inr e ↦ absurd (cc (rw e at h))
]

show_digits-value : (fuel n : ℕ) → n < 10 ^ fuel → digits_value 0 (show_digits fuel n) ≡ some n
unfolding show_digits digits_value
show_digits-value zero n h = ap some (omega arith)
show_digits-value (suc fuel) n h = split (ltb n 10) refl (show_digits-value fuel (n / 10) quotient)
  where
    quotient : n / 10 < 10 ^ fuel
    quotient = omega (arith, pow-suc 10 fuel)

    split :
        (b : Bool)
        → ltb n 10 ≡ b
        → digits_value 0 (show_digits fuel (n / 10)) ≡ some (n / 10)
        → digits_value 0 (elim b [
          | true ↦ (b'0' + n) ∷ []
          | false ↦ show_digits fuel (n / 10) ++ (b'0' + n % 10) ∷ []
        ])
          ≡ some n
    split true e small = ground (arith, e)
    split false e small =
        digits_value-snoc 0 (b'0' + n % 10) (n / 10) (show_digits fuel (n / 10)) small
          (ground arith)
        ∙ ap some (omega arith)

digit-bounds : (c : ℕ) → is_digit c ≡ true → (b'0' ≤ c) × (c ≤ b'9')
digit-bounds c h = ground arith

-- A decimal number is digits only, one at least.
abbrev pub AreDigits : Text → Type 0
AreDigits s = All (λ c. is_digit c ≡ true) s

show_digits-AreDigits : (fuel n : ℕ) → AreDigits (show_digits fuel n)
unfolding show_digits
show_digits-AreDigits zero n = tt
show_digits-AreDigits (suc fuel) n = split (ltb n 10) refl (show_digits-AreDigits fuel (n / 10))
  where
    split :
        (b : Bool)
        → ltb n 10 ≡ b
        → AreDigits (show_digits fuel (n / 10))
        → AreDigits (elim b [
          | true ↦ (b'0' + n) ∷ []
          | false ↦ show_digits fuel (n / 10) ++ (b'0' + n % 10) ∷ []
        ])
    split true e h = (ground arith, tt)
    split false e h =
        All-append (λ c. is_digit c ≡ true) _ ((b'0' + n % 10) ∷ []) h (ground arith, tt)

pub show_nat-AreDigits : (n : ℕ) → AreDigits (show_nat n)
unfolding show_nat
show_nat-AreDigits n = show_digits-AreDigits 20 n

positive-AreDigits :
    (s : Text) (n : ℕ)
    → AreDigits s
    → digits_value 0 s ≡ some n
    → s ≢ []
    → n < 2 ^ 63
    → atoi s ≡ some (pos n)
unfolding atoi
positive-AreDigits [] n d v ne h = absurd (ne refl)
positive-AreDigits (c ∷ s) n d v ne h = ground (arith, d.0, v, h)

snoc-ne : (s : Text) (c : ℕ) → s ++ c ∷ [] ≢ []
snoc-ne [] c e = cc
snoc-ne (d ∷ s) c e = cc

show_digits-ne : (fuel n : ℕ) → show_digits (suc fuel) n ≢ []
unfolding show_digits
show_digits-ne fuel n = elim (Bool-cases (ltb n 10)) [
  | inl e ↦ rw (show_digits, e) (λ f. cc)
  | inr e ↦ rw (show_digits, e) (snoc-ne (show_digits fuel (n / 10)) (b'0' + n % 10))
]

-- `Atoi` reads what %d writes.
pub atoi-show_nat : (n : ℕ) → n < 2 ^ 63 → atoi (show_nat n) ≡ some (pos n)
unfolding show_nat
atoi-show_nat n h =
    positive-AreDigits (show_digits 20 n) n (show_digits-AreDigits 20 n)
      (show_digits-value 20 n (omega arith)) (show_digits-ne 19 n) h
