-- ===== src/Number.antt =====
-- JavaScript numbers. The code computes with IEEE doubles, which the language implements and not
-- the program: the model takes their type and operations as an instance argument. `lit m e` is
-- the literal m / 10 ^ e, and `lit n 0` a whole number.
pub mod Fixed
use energlens.Common.{ℕ, ◌≡◌, Bool, true, false, Text}
use energlens.Common.Int.{ℤ}

pub record Number (F : Type 0) : Type 0 where
  pub lit : ℕ → ℕ → F
  pub of_ℤ : ℤ → F
  pub add : F → F → F
  pub sub : F → F → F
  pub mul : F → F → F
  pub div : F → F → F
  pub neg : F → F
  pub abs : F → F
  pub floor : F → F
  pub ceil : F → F
  -- `Math.round`
  pub round_half : F → F
  pub log10 : F → F
  -- `10 ** x`
  pub pow10 : F → F
  pub sign : F → F
  pub lt : F → F → Bool
  pub le : F → F → Bool
  -- `===`
  pub eq : F → F → Bool
  pub is_finite : F → Bool
  pub is_nan : F → Bool
  -- `Number(x.toPrecision(12))`
  pub precision12 : F → F
  -- `Number(s)` and `String(x)`
  pub of_text : Text → F
  pub to_text : F → Text
  -- a number that is known to be a small whole one, as a count of rounds
  pub to_ℕ : F → ℕ

-- The order of doubles that are not NaN.
pub record IsOrdered (F : Type 0) ⦃n : Number F⦄ : Type 0 where
  pub lt_irrefl : (x : F) → n.lt x x ≡ false
  pub lt_asymm : (x y : F) → n.lt x y ≡ true → n.lt y x ≡ false
  pub lt_trans : (x y z : F) → n.lt x y ≡ true → n.lt y z ≡ true → n.lt x z ≡ true
