-- ===== src/Timestamp/Calendar.antt =====
-- src/core.cpp `days_from_civil` counts the days of the Gregorian calendar, from 1970-01-01 on.
use bengal_market.Base.{
  Bool, Bool-cases, ap, arith, false, if◌then◌else◌, inl, inr, leb, length, refl, suc, sym, true,
  zero, ℕ, ◌%◌, ◌*◌, ◌+◌, ◌-◌, ◌/◌, ◌<◌, ◌^◌, ◌∙◌, ◌≡◌, ◌≤◌,
}
use bengal_market.Base.Int.{pos, scale_ℤ, ◌+ℤ◌, ◌-ℤ◌}
use bengal_market.Timestamp.{day_of_era, day_of_year, days_from_civil, era_of, year_of_era}
use bengal_market.Timestamp.Gregorian.{leap, month_days}

abbrev pub days_in_year : ℕ → ℕ
days_in_year year = if leap year then 366 else 365

-- The days of the `k` years from 1970 on.
abbrev pub days_of_years : ℕ → ℕ
days_of_years zero = 0
days_of_years (suc k) = days_of_years k + days_in_year (1970 + k)

abbrev pub days_before_month : ℕ → ℕ → ℕ
days_before_month year zero = 0
days_before_month year (suc zero) = 0
days_before_month year (suc (suc m)) = days_before_month year (suc m) + month_days year (suc m)

abbrev pub days_since_epoch : ℕ → ℕ → ℕ → ℕ
days_since_epoch year month day =
    days_of_years (year - 1970) + days_before_month year month + (day - 1)

-- The days of the years 1 to `p`, in closed form.
abbrev days_to : ℕ → ℕ
days_to p = p * 365 + p / 4 - p / 100 + p / 400

days_to-suc : (p : ℕ) → days_to (suc p) ≡ days_to p + days_in_year (suc p)
days_to-suc p = ground arith

days_of_years_lem : (k : ℕ) → days_of_years k + 719_162 ≡ days_to (1969 + k)
days_of_years_lem zero = refl
days_of_years_lem (suc k) =
    let e : 1969 + suc k ≡ suc (1969 + k) = omega arith in
    let e' : suc (1969 + k) ≡ 1970 + k = omega arith in
    rw e (omega (arith, days_of_years_lem k, days_to-suc (1969 + k), ap days_in_year e'))

-- February takes the leap day; the other months follow the rule 153 * m + 2 over 5 from March on.
month_rule :
    (year month : ℕ)
    → 1 ≤ month
    → month ≤ 12
    → days_before_month year month ≡ (
        if leb month 2
        then 31 * (month - 1)
        else (153 * (month - 3) + 2) / 5 + (days_in_year year - 306))
month_rule year (suc (suc (suc (suc (suc (suc (suc (suc (suc (suc (suc (suc (suc m))))))))))))) lo
      hi =
    absurd (omega arith)
month_rule year _ lo hi = ground arith

era_of-pos : (p : ℕ) → era_of (pos p) ≡ pos (p / 400)
unfolding era_of
era_of-pos p = refl

year_of_era-pos : (p : ℕ) → year_of_era (pos p) ≡ p % 400
unfolding year_of_era
year_of_era-pos p = rw era_of-pos (ground arith)

day_of_year_rule :
    (month day : ℕ)
    → 1 ≤ month
    → month ≤ 12
    → 1 ≤ day
    → day ≤ 31
    → day_of_year month day
      ≡ (if leb month 2 then 153 * (month + 9) + 2 else 153 * (month - 3) + 2) / 5 + day - 1
unfolding day_of_year
day_of_year_rule month day m0 m1 d0 d1 = ground arith

day_of_era_rule : (p d : ℕ) → d ≤ 400 → day_of_era (p % 400) d + p / 400 * 146_097 ≡ days_to p + d
unfolding day_of_era
day_of_era_rule p d hd = omega arith

civil_rule :
    (p month day : ℕ)
    → 1 ≤ p
    → day_of_year month day ≤ 400
    → 719_468 ≤ days_to p + day_of_year month day
    → scale_ℤ (era_of (pos p)) 146_097
        +ℤ pos (day_of_era (year_of_era (pos p)) (day_of_year month day))
        -ℤ pos 719_468
      ≡ pos (days_to p + day_of_year month day - 719_468)
civil_rule p month day hp hd h =
    rw (era_of-pos, year_of_era-pos) (ground (arith, day_of_era_rule p (day_of_year month day) hd))

before : (n : ℕ) → 1 ≤ n → pos n -ℤ pos 1 ≡ pos (n - 1)
before n h = ground arith

-- January and February belong to the year before.
from_march :
    (year month day : ℕ)
    → 1970 ≤ year
    → day_of_year month day ≤ 400
    → (leb month 2 ≡ true → 306 ≤ day_of_year month day)
    → days_from_civil (pos year) month day
      ≡ pos (days_to (if leb month 2 then year - 1 else year) + day_of_year month day - 719_468)
unfolding days_from_civil
from_march year month day h hd late = elim (Bool-cases (leb month 2)) [
  | inl e ↦
      rw (e, before year (omega arith))
        (civil_rule (year - 1) month day (omega arith) hd (omega (arith, late e)))
  | inr e ↦ rw e (civil_rule year month day (omega arith) hd (omega arith))
]

-- The sum, with the days of the years up to the last one and up to the one before it as numbers.
sum_step :
    (last previous length years before doy month day : ℕ)
    → 1 ≤ month
    → month ≤ 12
    → 1 ≤ day
    → 365 ≤ length
    → years + 719_162 ≡ previous
    → last ≡ previous + length
    → before
      ≡ (if leb month 2 then 31 * (month - 1) else (153 * (month - 3) + 2) / 5 + (length - 306))
    → doy ≡ (if leb month 2 then 153 * (month + 9) + 2 else 153 * (month - 3) + 2) / 5 + day - 1
    → (if leb month 2 then previous else last) + doy - 719_468 ≡ years + before + (day - 1)
sum_step last previous length years before doy month day m0 m1 d0 l e e' b d = ground arith

days_in_year-ge : (year : ℕ) → 365 ≤ days_in_year year
days_in_year-ge year = ground arith

-- For every year from 1970 to 9999, month from 1 to 12 and day from 1 to 31, `days_from_civil` is the
-- number of days since 1970-01-01 that counting years and months gives.
pub days_from_civil-days_since_epoch :
    (year month day : ℕ)
    → 1970 ≤ year
    → year ≤ 9999
    → 1 ≤ month
    → month ≤ 12
    → 1 ≤ day
    → day ≤ 31
    → days_from_civil (pos year) month day ≡ pos (days_since_epoch year month day)
days_from_civil-days_since_epoch year month day y0 y1 m0 m1 d0 d1 =
    let doy = day_of_year_rule month day m0 m1 d0 d1 in
    let small : day_of_year month day ≤ 400 = ground (arith, doy) in
    from_march year month day y0 small (λ e. ground (arith, doy))
    ∙ ap pos (
        ap (λ n. n + day_of_year month day - 719_468) (if-days (leb month 2))
        ∙ sum_step (days_to year) (days_to (year - 1)) (days_in_year year)
            (days_of_years (year - 1970)) (days_before_month year month) (day_of_year month day)
            month day m0 m1 d0 (days_in_year-ge year)
            (days_of_years_lem (year - 1970) ∙ ap days_to (omega arith))
            (ap days_to grown
              ∙ days_to-suc (year - 1)
              ∙ ap (λ y. days_to (year - 1) + days_in_year y) (sym grown))
            (month_rule year month m0 m1) doy)
  where
    grown : year ≡ suc (year - 1)
    grown = omega arith

    if-days :
        (b : Bool)
        → days_to (if b then year - 1 else year) ≡ (if b then days_to (year - 1) else days_to year)
    if-days true = refl
    if-days false = refl

days_in_year-le : (year : ℕ) → days_in_year year ≤ 366
days_in_year-le year = ground arith

pub days_since_epoch-lt :
    (year month day : ℕ)
    → 1970 ≤ year
    → year ≤ 9999
    → 1 ≤ month
    → month ≤ 12
    → day ≤ 31
    → days_since_epoch year month day < 2 ^ 32
days_since_epoch-lt year month day y0 y1 m0 m1 d1 =
    ground
      (arith, month_rule year month m0 m1, days_of_years_lem (year - 1970), days_in_year-le year)
