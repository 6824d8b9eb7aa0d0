-- ===== src/Partitions/Dates.antt =====
-- The calendar that src/services/partitions.py counts days in.
use proxysm.Base.{
  ℕ, ◌+◌, ◌-◌, ◌*◌, ◌≤◌, ◌<◌, ◌≡◌, refl, ap, sym, ◌∙◌, true, arith, ltb, Bool-cases, inl, inr,
}
use proxysm.Partitions.{Date, ymd, days_in_month, tomorrow, yesterday, is_before}

-- A day of a month that has it.
abbrev pub Fits : Date → Type 0
Fits d = (1 ≤ d.month) × (d.month ≤ 12) × (1 ≤ d.day) × (d.day ≤ days_in_month d.year d.month)

pub days_in_month_bounds : (y m : ℕ) → (28 ≤ days_in_month y m) × (days_in_month y m ≤ 31)
unfolding days_in_month
days_in_month_bounds y m = ground arith

december : (y : ℕ) → days_in_month y 12 ≡ 31
unfolding days_in_month
december y = refl

-- A number that grows with the date.
abbrev pub rank : Date → ℕ
rank d = d.year * 512 + d.month * 32 + d.day

pub is_before-rank : (a b : Date) → Fits a → Fits b → is_before a b ≡ ltb (rank a) (rank b)
unfolding is_before
is_before-rank a b h k =
    let la = days_in_month_bounds a.year a.month in
    let lb = days_in_month_bounds b.year b.month in ground (arith, la, lb)

pub tomorrow-Fits : (d : Date) → Fits d → Fits (tomorrow d)
unfolding tomorrow
tomorrow-Fits d h =
    let next = days_in_month_bounds d.year (d.month + 1) in
    let new_year = days_in_month_bounds (d.year + 1) 1 in
    elim (Bool-cases (ltb d.day (days_in_month d.year d.month))) [
      | inl e ↦ rw (e) (h.0, h.1, omega arith, ground (arith, e))
      | inr e ↦ elim (Bool-cases (ltb d.month 12)) [
        | inl f ↦ rw (e, f) (omega arith, ground (arith, f), omega arith, omega (arith, next))
        | inr f ↦ rw (e, f) (omega arith, omega arith, omega arith, omega (arith, new_year))
      ]
    ]

pub rank-tomorrow : (d : Date) → Fits d → rank d < rank (tomorrow d)
unfolding tomorrow
rank-tomorrow d h = let l = days_in_month_bounds d.year d.month in ground (arith, l)

pub yesterday-Fits : (d : Date) → Fits d → Fits (yesterday d)
unfolding yesterday
yesterday-Fits d h =
    let before = days_in_month_bounds d.year (d.month - 1) in
    elim (Bool-cases (ltb 1 d.day)) [
      | inl e ↦ rw (e) (h.0, h.1, ground (arith, e), omega arith)
      | inr e ↦ elim (Bool-cases (ltb 1 d.month)) [
        | inl f ↦ rw (e, f) (ground (arith, f), omega arith, omega (arith, before), omega arith)
        | inr f ↦
            rw (e, f) (omega arith, omega arith, omega arith, omega (arith, december (d.year - 1)))
      ]
    ]

pub rank-yesterday : (d : Date) → Fits d → 1 ≤ d.year → rank (yesterday d) < rank d
unfolding yesterday
rank-yesterday d h y = let l = days_in_month_bounds d.year (d.month - 1) in ground (arith, l)

pub yesterday-tomorrow : (d : Date) → Fits d → yesterday (tomorrow d) ≡ d
unfolding yesterday tomorrow
yesterday-tomorrow d h = elim (Bool-cases (ltb d.day (days_in_month d.year d.month))) [
  | inl e ↦
      let later : ltb 1 (d.day + 1) ≡ true = ground arith in
      let back : d.day + 1 - 1 ≡ d.day = omega arith in rw (e, later) (ap (ymd d.year d.month) back)
  | inr e ↦
      let last : days_in_month d.year d.month ≡ d.day = ground (arith, e) in
      elim (Bool-cases (ltb d.month 12)) [
        | inl f ↦
            let later : ltb 1 (d.month + 1) ≡ true = ground arith in
            let back : d.month + 1 - 1 ≡ d.month = omega arith in
            rw (e, f, later)
              (ap (λ m. ymd d.year m (days_in_month d.year m)) back ∙ ap (ymd d.year d.month) last)
        | inr f ↦
            let is_last : d.month ≡ 12 = ground (arith, f) in
            let day_31 : d.day ≡ 31 =
              sym last ∙ ap (days_in_month d.year) is_last ∙ december d.year in
            let back : d.year + 1 - 1 ≡ d.year = omega arith in
            rw (e, f) (λ i. ymd (back i) (sym is_last i) (sym day_31 i))
      ]
]
