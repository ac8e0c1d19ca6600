-- ===== src/Kernel/Mktime/Calendar.antt =====
-- The Gregorian calendar, counted day by day, and `kernel_mktime` against it.
use linux_0_11_notes.Prelude.{
  Bool, Bool-cases, [], any_below, any_below-intro, ap, arith, false, get_or, if◌then◌else◌, inl,
  inr, ltb, not, pos, refl, suc, zero, ℕ, ◌%◌, ◌&&◌, ◌*◌, ◌+◌, ◌-◌, ◌/◌, ◌<◌, ◌==◌, ◌^◌, ◌||◌, ◌∙◌,
  ◌∷◌, ◌≡◌, ◌≤◌,
}
use linux_0_11_notes.Kernel.Format.{as_int}
use linux_0_11_notes.Kernel.Mktime.{
  Tm, day_secs, hour_secs, kernel_mktime, minute_secs, month, year_secs,
}

abbrev pub is_leap : ℕ → Bool
is_leap y = y % 4 == 0 && (not (y % 100 == 0) || y % 400 == 0)

abbrev pub days_in_year : ℕ → ℕ
days_in_year y = if is_leap y then 366 else 365

abbrev pub days_in_month : ℕ → ℕ → ℕ
days_in_month y m =
    if m == 1 && is_leap y
    then 29
    else get_or (31 ∷ 28 ∷ 31 ∷ 30 ∷ 31 ∷ 30 ∷ 31 ∷ 31 ∷ 30 ∷ 31 ∷ 30 ∷ 31 ∷ []) m 0

-- The days of the n years from 1970 on.
unfoldable pub days_of_years : ℕ → ℕ
days_of_years zero = 0
days_of_years (suc n) = days_of_years n + days_in_year (1970 + n)

-- The days of the first m months of a year.
unfoldable pub days_of_months : ℕ → ℕ → ℕ
days_of_months y zero = 0
days_of_months y (suc m) = days_of_months y m + days_in_month y m

-- The days from 1 January 1970 to the first of month m of year 1970 + n.
unfoldable pub days_before : ℕ → ℕ → ℕ
unfolding days_of_years days_of_months
days_before n m = days_of_years n + days_of_months (1970 + n) m

first_of_month : ℕ → ℕ → Tm
first_of_month n m = record { sec = 0; minute = 0; hour = 0; mday = 1; mon = m; year = n + 70 }

-- The value before the day, the hour, the minute and the second are added, as a word.
month_word : ℕ → ℕ → ℕ
month_word y m =
    let res : ℕ = ((year_secs * y + day_secs * ((y + 1) / 4)) % 2 ^ 32 + month m) % 2 ^ 32 in
    if ltb 1 m && not ((y + 2) % 4 == 0) then (res + (2 ^ 32 - day_secs)) % 2 ^ 32 else res

differs : ℕ → ℕ → Bool
unfolding month_word days_before
differs n m = not (month_word n m == day_secs * days_before n m % 2 ^ 32)

-- No month from 1970 to 2099 differs.
no_month_differs : any_below 130 (λ n. any_below 12 (differs n)) ≡ false
unfolding any_below differs
no_month_differs = refl

month_lem : (n m : ℕ) → n < 130 → m < 12 → month_word n m ≡ day_secs * days_before n m % 2 ^ 32
unfolding differs
month_lem n m hn hm = ground (
  arith,
  no_month_differs,
  any_below-intro 12 (differs n) m hm,
  any_below-intro 130 (λ n. any_below 12 (differs n)) n hn,
)

-- The seconds from the epoch, by the Gregorian calendar.
unfoldable pub seconds : Tm → ℕ
seconds tm =
    day_secs * (days_before (tm.year - 70) tm.mon + (tm.mday - 1))
    + hour_secs * tm.hour
    + minute_secs * tm.minute
    + tm.sec

added :
    (w d n h m s k : ℕ)
    → w ≡ day_secs * d % 2 ^ 32
    → n ≡ suc k
    → ((w + day_secs * n + (2 ^ 32 - day_secs)) % 2 ^ 32 + hour_secs * h + minute_secs * m + s)
        % 2 ^ 32
      ≡ (day_secs * (d + k) + hour_secs * h + minute_secs * m + s) % 2 ^ 32
added w d n h m s k e f = omega arith

kernel_mktime-word :
    (tm : Tm)
    → tm.year < 200
    → tm.mon < 12
    → 0 < tm.mday
    → kernel_mktime tm ≡ as_int (seconds tm % 2 ^ 32)
unfolding kernel_mktime month_word seconds
kernel_mktime-word tm hi m d = ap as_int (
    added (month_word (tm.year - 70) tm.mon) (days_before (tm.year - 70) tm.mon) tm.mday tm.hour
      tm.minute tm.sec (tm.mday - 1) (month_lem (tm.year - 70) tm.mon (omega arith) m)
      (omega arith))

-- From 1970 to 2099, for a day of the month from 1 on, `kernel_mktime` counts the seconds from the epoch
-- by the Gregorian calendar, as a 32-bit long: below 2 ^ 31, which is up to January 2038, the value is
-- the number of seconds itself, and from then on that number modulo 2 ^ 32, read as a signed number.
pub mktime_lem :
    (tm : Tm)
    → 70 ≤ tm.year
    → tm.year < 200
    → tm.mon < 12
    → 0 < tm.mday
    → kernel_mktime tm
      ≡ (if ltb (seconds tm) (2 ^ 31) then pos (seconds tm) else as_int (seconds tm % 2 ^ 32))
mktime_lem tm lo hi m d = elim (Bool-cases (ltb (seconds tm) (2 ^ 31))) [
  | inl small ↦ kernel_mktime-word tm hi m d ∙ ground arith
  | inr big ↦ kernel_mktime-word tm hi m d ∙ ground arith
]
