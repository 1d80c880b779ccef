-- ===== src/Calendar.antt =====
-- Dates as the code counts months and years with them: `setMonth` and `setFullYear` of JavaScript's
-- Date, in UTC. A day that the month does not have runs over into the next month.
use chargev.Prelude.{
  ℕ, suc, ◌-◌, ◌%◌, ◌≡◌, ◌≤◌, Bool, true, not, ◌&&◌, ◌||◌, ◌==◌, ltb, leb, if◌then◌else◌, arith,
}

-- Months are counted from 0 and days from 1; `millis` is the time of the day.
pub record Date : Type 0 where
  pub year : ℕ
  pub month : ℕ
  pub day : ℕ
  pub millis : ℕ

abbrev pub leap : ℕ → Bool
leap y = (y % 4 == 0) && (not (y % 100 == 0) || (y % 400 == 0))

abbrev pub short : ℕ → Bool
short m = m == 3 || m == 5 || m == 8 || m == 10

abbrev pub days_in : ℕ → ℕ → ℕ
days_in y m = if m == 1 then (if leap y then 29 else 28) else if short m then 30 else 31

abbrev pub next_month : Date → Date
next_month d =
    if d.month == 11
    then record d { year = suc d.year; month = 0 }
    else record d { month = suc d.month }

abbrev pub run_over : Date → Date
run_over d =
    if leb d.day (days_in d.year d.month)
    then d
    else record (next_month d) { day = d.day - days_in d.year d.month }

-- `date.setMonth(date.getMonth() + 1)`
unfoldable pub add_month : Date → Date
add_month d = run_over (next_month d)

-- `date.setFullYear(date.getFullYear() + 1)`
unfoldable pub add_year : Date → Date
add_year d = run_over (record d { year = suc d.year })

abbrev pub ltb_date : Date → Date → Bool
ltb_date a b =
    ltb a.year b.year
    || (a.year == b.year
        && (ltb a.month b.month
            || (a.month == b.month
                && (ltb a.day b.day || (a.day == b.day && ltb a.millis b.millis)))))

pub add_month-later : (d : Date) → d.month ≤ 11 → ltb_date d (add_month d) ≡ true
unfolding add_month
add_month-later d h = ground arith

pub add_year-later : (d : Date) → d.month ≤ 11 → ltb_date d (add_year d) ≡ true
unfolding add_year
add_year-later d h = ground arith
