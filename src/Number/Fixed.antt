-- ===== src/Number/Fixed.antt =====
-- A concrete number type for runs of the model: whole ten-thousandths, with `none` for NaN. It stands
-- in for doubles only where a run needs values.
use energlens.Common.{
  ℕ, ◌-◌, ◌*◌, ◌/◌, ◌^◌, Bool, false, not, ◌&&◌, Option, none, some, [], ◌∷◌, Text, ◌++◌, of_ℕ,
  number, if◌then◌else◌, ◌==◌, is_some, length, arith,
}
use energlens.Common.Int
use energlens.Common.Int.{
  ℤ, pos, negsuc, neg_part, pos_part, ◌+ℤ◌, ◌-ℤ◌, ◌*ℤ◌, ltb_ℤ, div_floor, div_trunc, sub_ℕ,
}
use energlens.Number.{Number, IsOrdered}

abbrev pub Fixed : Type 0
Fixed = Option ℤ

abbrev lift₁ : (ℤ → ℤ) → Fixed → Fixed
lift₁ f none = none
lift₁ f (some a) = some (f a)

abbrev lift₂ : (ℤ → ℤ → ℤ) → Fixed → Fixed → Fixed
lift₂ f (some a) (some b) = some (f a b)
lift₂ f _ _ = none

abbrev test₂ : (ℤ → ℤ → Bool) → Fixed → Fixed → Bool
test₂ f (some a) (some b) = f a b
test₂ f _ _ = false

abbrev pub whole : ℤ → ℤ
whole a = a *ℤ pos 10000

abbrev floor_of : ℤ → ℤ
floor_of a = whole (div_floor a 10000)

abbrev quotient : Fixed → Fixed → Fixed
quotient (some a) (some b) = if Int.abs b == 0 then none else some (div_trunc (whole a) b)
quotient _ _ = none

-- `1e-9` and other literals below a ten-thousandth are 0.
abbrev literal : ℕ → ℕ → Fixed
literal m e = some (pos (m * 10000 / 10 ^ e))

-- The whole part of the logarithm, for numbers from 1 on; below 1 it is taken as 0.
abbrev log_of : ℤ → ℤ
log_of a = pos ((length (of_ℕ (pos_part a / 10000)) - 1) * 10000)

abbrev pow_of : ℤ → ℤ
pow_of a = pos (10000 * 10 ^ (pos_part a / 10000))

abbrev sign_of : ℤ → ℤ
sign_of a = if ltb_ℤ a (pos 0) then negsuc 9999 else if ltb_ℤ (pos 0) a then pos 10000 else pos 0

-- Whole numbers only.
abbrev read_text : Text → Fixed
read_text s = scaled (number s)
  where
    scaled : Option ℕ → Fixed
    scaled none = none
    scaled (some n) = some (pos (n * 10000))

abbrev print : Fixed → Text
print none = b'N' ∷ b'a' ∷ b'N' ∷ []
print (some a) = (if ltb_ℤ a (pos 0) then b'-' ∷ [] else []) ++ of_ℕ (Int.abs a / 10000)

abbrev count : Fixed → ℕ
count none = 0
count (some a) = pos_part a / 10000

instance abbrev pub fixed : Number Fixed
fixed = record {
  lit = literal;
  of_ℤ = λ a. some (whole a);
  add = lift₂ (λ a b. a +ℤ b);
  sub = lift₂ (λ a b. a -ℤ b);
  mul = lift₂ (λ a b. div_floor (a *ℤ b) 10000);
  div = quotient;
  neg = lift₁ (λ a. pos 0 -ℤ a);
  abs = lift₁ (λ a. pos (Int.abs a));
  floor = lift₁ floor_of;
  ceil = lift₁ (λ a. pos 0 -ℤ floor_of (pos 0 -ℤ a));
  round_half = lift₁ (λ a. floor_of (a +ℤ pos 5000));
  log10 = lift₁ log_of;
  pow10 = lift₁ pow_of;
  sign = lift₁ sign_of;
  lt = test₂ ltb_ℤ;
  le = test₂ (λ a b. not (ltb_ℤ b a));
  eq = test₂ (λ a b. not (ltb_ℤ a b) && not (ltb_ℤ b a));
  is_finite = is_some;
  is_nan = λ x. not (is_some x);
  precision12 = λ x. x;
  of_text = read_text;
  to_text = print;
  to_ℕ = count;
}

pub fixed-IsOrdered : IsOrdered Fixed
fixed-IsOrdered = record {
  lt_irrefl = λ x. ground arith;
  lt_asymm = λ x y h. ground arith;
  lt_trans = λ x y z h k. ground arith;
}
