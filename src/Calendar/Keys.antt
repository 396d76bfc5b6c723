-- ===== src/Calendar/Keys.antt =====
-- `periodKey` and its way back: the keys of four-digit years can be read back, and their order as
-- strings is the order of the months.
use energlens.Common.{
  ℕ, zero, suc, ◌+◌, ◌*◌, ◌/◌, ◌%◌, ◌≤◌, ◌<◌, ◌≡◌, refl, ◌∙◌, ap, sym, ◌↔◌, inl, inr, true, false,
  Bool, ◌&&◌, ◌||◌, Option, some, [], ◌∷◌, ◌++◌, Text, digits, of_ℕ, pad_zeros, text_lt, arith, ltb,
  ◌==◌, Bool-cases,
}
use energlens.Calendar.{period_key, period_parts}

-- A month of a year with at most four digits.
pub record IsMonth (y m : ℕ) : Type 0 where
  pub year_in : y < 10000
  pub month_in : (1 ≤ m) × (m ≤ 12)

digits-one : (f n : ℕ) → n < 10 → digits (suc f) n ≡ (b'0' + n) ∷ []
digits-one f n h = ground arith

digits-two :
    (f n : ℕ) → 10 ≤ n → n < 100 → digits (suc (suc f)) n ≡ (b'0' + n / 10) ∷ (b'0' + n % 10) ∷ []
digits-two f n h k = ground (arith, digits-one f (n / 10))

digits-three :
    (f n : ℕ)
    → 100 ≤ n
    → n < 1000
    → digits (suc (suc (suc f))) n ≡ (b'0' + n / 100) ∷ (b'0' + n / 10 % 10) ∷ (b'0' + n % 10) ∷ []
digits-three f n h k = ground (arith, digits-two f (n / 10))

digits-four :
    (f n : ℕ)
    → 1000 ≤ n
    → n < 10000
    → digits (suc (suc (suc (suc f)))) n
      ≡ (b'0' + n / 1000) ∷ (b'0' + n / 100 % 10) ∷ (b'0' + n / 10 % 10) ∷ (b'0' + n % 10) ∷ []
digits-four f n h k = ground (arith, digits-three f (n / 10))

abbrev four : ℕ → Text
four n = (b'0' + n / 1000) ∷ (b'0' + n / 100 % 10) ∷ (b'0' + n / 10 % 10) ∷ (b'0' + n % 10) ∷ []

abbrev two : ℕ → Text
two n = (b'0' + n / 10) ∷ (b'0' + n % 10) ∷ []

-- Either range of a number fixes how many digits it has.
four_digits : (n : ℕ) → n < 10000 → pad_zeros 4 (of_ℕ n) ≡ four n
unfolding of_ℕ
four_digits n h = elim (Bool-cases (ltb n 10)) [
  | inl a ↦ rw (digits-one n n (ground arith)) (ground arith)
  | inr a ↦ above n h (ground arith)
]
  where
    above : (n : ℕ) → n < 10000 → 10 ≤ n → pad_zeros 4 (digits (suc n) n) ≡ four n
    above (suc (suc (suc n))) h k = elim (Bool-cases (ltb (n + 3) 100)) [
      | inl a ↦ rw (digits-two (suc (suc n)) (suc (suc (suc n))) k (ground arith)) (ground arith)
      | inr a ↦ elim (Bool-cases (ltb (n + 3) 1000)) [
        | inl b ↦
            rw (digits-three (suc n) (suc (suc (suc n))) (ground arith) (ground arith))
              (ground arith)
        | inr b ↦ rw (digits-four n (suc (suc (suc n))) (ground arith) h) (ground arith)
      ]
    ]
    above n h k = absurd (omega arith)

two_digits : (n : ℕ) → n < 100 → pad_zeros 2 (of_ℕ n) ≡ two n
unfolding of_ℕ
two_digits n h = elim (Bool-cases (ltb n 10)) [
  | inl a ↦ rw (digits-one n n (ground arith)) (ground arith)
  | inr a ↦ above n h (ground arith)
]
  where
    above : (n : ℕ) → n < 100 → 10 ≤ n → pad_zeros 2 (digits (suc n) n) ≡ two n
    above (suc n) h k = rw (digits-two n (suc n) k h) (ground arith)
    above zero h k = absurd (omega arith)

-- The seven characters of a key.
pub period_key-eq : (y m : ℕ) → IsMonth y m → period_key y m ≡ four y ++ (b'-' ∷ two m)
unfolding period_key
period_key-eq y m v = rw (four_digits y v.year_in, two_digits m (omega arith)) refl

-- A key of a year of up to four digits reads back as its year and month.
pub period_parts-period_key : (y m : ℕ) → IsMonth y m → period_parts (period_key y m) ≡ some (y, m)
unfolding period_parts
period_parts-period_key y m v = rw (period_key-eq y m v) (ground arith)

-- `n < n'`, and on a tie what the later characters say.
abbrev lex : ℕ → ℕ → Bool → Bool
lex n n' later = ltb n n' || (n == n' && later)

lex-digit :
    (d d' : ℕ) (s t : Text) → text_lt ((b'0' + d) ∷ s) ((b'0' + d') ∷ t) ≡ lex d d' (text_lt s t)
lex-digit d d' s t = ground arith

-- A leading part and one more digit compare like the number that they make.
lex-join :
    (n n' p p' d d' : ℕ) (later : Bool)
    → n ≡ 10 * p + d
    → n' ≡ 10 * p' + d'
    → d < 10
    → d' < 10
    → lex p p' (lex d d' later) ≡ lex n n' later
lex-join n n' p p' d d' later e e' h h' = ground arith

lex-four : (y y' : ℕ) (s t : Text) → text_lt (four y ++ s) (four y' ++ t) ≡ lex y y' (text_lt s t)
lex-four y y' s t =
    let later = text_lt s t in
    let a : Bool = lex (y % 10) (y' % 10) later in
    let b : Bool = lex (y / 10 % 10) (y' / 10 % 10) a in
    let s₁ : Text = (b'0' + y % 10) ∷ s in
    let t₁ : Text = (b'0' + y' % 10) ∷ t in
    let s₂ : Text = (b'0' + y / 10 % 10) ∷ s₁ in
    let t₂ : Text = (b'0' + y' / 10 % 10) ∷ t₁ in
    let s₃ : Text = (b'0' + y / 100 % 10) ∷ s₂ in
    let t₃ : Text = (b'0' + y' / 100 % 10) ∷ t₂ in
    lex-digit (y / 1000) (y' / 1000) s₃ t₃
    ∙ ap (lex (y / 1000) (y' / 1000)) (
        lex-digit (y / 100 % 10) (y' / 100 % 10) s₂ t₂
        ∙ ap (lex (y / 100 % 10) (y' / 100 % 10)) (
            lex-digit (y / 10 % 10) (y' / 10 % 10) s₁ t₁
            ∙ ap (lex (y / 10 % 10) (y' / 10 % 10)) (lex-digit (y % 10) (y' % 10) s t)))
    ∙ lex-join (y / 100) (y' / 100) (y / 1000) (y' / 1000) (y / 100 % 10) (y' / 100 % 10) b
        (omega arith) (omega arith) (omega arith) (omega arith)
    ∙ lex-join (y / 10) (y' / 10) (y / 100) (y' / 100) (y / 10 % 10) (y' / 10 % 10) a (omega arith)
        (omega arith) (omega arith) (omega arith)
    ∙ lex-join y y' (y / 10) (y' / 10) (y % 10) (y' % 10) later (omega arith) (omega arith)
        (omega arith) (omega arith)

lex-two : (m m' : ℕ) → text_lt (two m) (two m') ≡ lex m m' false
lex-two m m' =
    lex-digit (m / 10) (m' / 10) ((b'0' + m % 10) ∷ []) ((b'0' + m' % 10) ∷ [])
    ∙ ap (lex (m / 10) (m' / 10)) (lex-digit (m % 10) (m' % 10) [] [])
    ∙ lex-join m m' (m / 10) (m' / 10) (m % 10) (m' % 10) false (omega arith) (omega arith)
        (omega arith) (omega arith)

text_lt-key :
    (y m y' m' : ℕ)
    → text_lt (four y ++ (b'-' ∷ two m)) (four y' ++ (b'-' ∷ two m')) ≡ lex y y' (lex m m' false)
text_lt-key y m y' m' = lex-four y y' (b'-' ∷ two m) (b'-' ∷ two m') ∙ ap (lex y y') (lex-two m m')

-- Keys compare as strings just as their months do in time.
pub text_lt-period_key :
    (y m y' m' : ℕ)
    → IsMonth y m
    → IsMonth y' m'
    → (text_lt (period_key y m) (period_key y' m') ≡ true) ↔ (12 * y + m < 12 * y' + m')
text_lt-period_key y m y' m' v v' =
    rw (period_key-eq y m v, period_key-eq y' m' v', text_lt-key y m y' m') (ground arith)

-- Two keys are the same text only for the same month.
pub period_key_inj :
    (y m y' m' : ℕ)
    → IsMonth y m
    → IsMonth y' m'
    → period_key y m ≡ period_key y' m'
    → (y ≡ y') × (m ≡ m')
period_key_inj y m y' m' v v' e =
    let same : ◌≡◌ {A = Option (ℕ × ℕ)} (some (y, m)) (some (y', m')) =
      sym (period_parts-period_key y m v) ∙ ap period_parts e ∙ period_parts-period_key y' m' v' in
    (cc, cc)

-- From the year 1000 on no zero is added.
pub of_ℕ-four : (n : ℕ) → 1000 ≤ n → n < 10000 → of_ℕ n ≡ pad_zeros 4 (of_ℕ n)
unfolding of_ℕ
of_ℕ-four n h k = wide n h k ∙ sym (four_digits n k)
  where
    wide : (n : ℕ) → 1000 ≤ n → n < 10000 → digits (suc n) n ≡ four n
    wide (suc (suc (suc n))) h k = digits-four n (suc (suc (suc n))) h k
    wide zero h k = absurd (omega arith)
    wide (suc zero) h k = absurd (omega arith)
    wide (suc (suc zero)) h k = absurd (omega arith)
