-- ===== src/Bills/Order.antt =====
-- `parseBills` returns the same bills, oldest first.
use energlens.Common.{ℕ, ◌≤◌, ◌≡◌, true, false, ◌==◌, List, [], ◌∷◌, All, map, filter_by, arith}
use energlens.Common.Sort.{IsSorted, IsOrder, sort-perm, sort-IsSorted, filter_by-sort}
use mathlib.Core.List.{Perm}
use energlens.Number.{Number}
use energlens.Calendar.{Zone, day_number}
use energlens.Calendar.Days.{IsSteady, time_le_iff}
use energlens.Api.{Bill}
use energlens.Bills.{ParsedBill, parse_bill, parse_bills, starts_before}

-- The calendar day on which a bill's period starts.
abbrev pub start_day : {F : Type 0} → ParsedBill F → ℕ
start_day b = day_number b.period_start

-- Every bill starts no later than the ones behind it.
abbrev pub IsOldestFirst : {F : Type 0} → List (ParsedBill F) → Type 0
IsOldestFirst [] = Unit
IsOldestFirst (b ∷ bs) = All (λ c. start_day b ≤ start_day c) bs × IsOldestFirst bs

module _ {F : Type 0} ⦃n : Number F⦄ (z : Zone) where
  starts_before-IsOrder : IsOrder (starts_before {F = F} z)
  unfolding starts_before
  starts_before-IsOrder = record {
    asymm = λ x y h. ground arith;
    negtrans = λ x y w h k. ground arith;
  }

  module _ (steady : IsSteady z) where
    starts_before-le :
        (b c : ParsedBill F) → starts_before z c b ≡ false → start_day b ≤ start_day c
    unfolding starts_before
    starts_before-le b c h = (time_le_iff z b.period_start c.period_start steady).0 (ground arith)

    starts_before-tied :
        (d : ℕ) (b c : ParsedBill F)
        → (start_day b == d) ≡ true
        → (start_day c == d) ≡ true
        → starts_before z c b ≡ false
    unfolding starts_before
    starts_before-tied d b c h k =
        let fits : start_day b ≤ start_day c = ground arith in
        let in_time = (time_le_iff z b.period_start c.period_start steady).1 fits in ground arith

    All-le :
        (b : ParsedBill F) (cs : List (ParsedBill F))
        → All (λ c. starts_before z c b ≡ false) cs
        → All (λ c. start_day b ≤ start_day c) cs
    All-le b [] ps = tt
    All-le b (c ∷ cs) (p, ps) = (starts_before-le b c p, All-le b cs ps)

    IsSorted-IsOldestFirst :
        (bs : List (ParsedBill F)) → IsSorted (starts_before z) bs → IsOldestFirst bs
    IsSorted-IsOldestFirst [] s = tt
    IsSorted-IsOldestFirst (b ∷ bs) (low, s) = (All-le b bs low, IsSorted-IsOldestFirst bs s)

    -- `parseBills` loses and invents no bill. In a steady zone its result is in the order of the calendar
    -- days on which the periods start, the oldest first, and bills that start on the same day, whichever it
    -- is, stay in the order in which they came.
    pub parse_bills-IsSorted :
        (bills : List Bill)
        → Perm (parse_bills {F = F} z bills) (map (parse_bill z) bills)
          × IsOldestFirst (parse_bills {F = F} z bills)
          × ((day : ℕ)
              → filter_by (λ b. start_day b == day) (parse_bills {F = F} z bills)
                ≡ filter_by (λ b. start_day b == day) (map (parse_bill z) bills))
    unfolding parse_bills
    parse_bills-IsSorted bills =
        let parsed = map (parse_bill z) bills in
        (
          sort-perm (starts_before z) parsed,
          IsSorted-IsOldestFirst _ (sort-IsSorted (starts_before z) starts_before-IsOrder parsed),
          λ day.
              filter_by-sort (starts_before z) (λ b. start_day b == day) (starts_before-tied day)
                parsed,
        )
