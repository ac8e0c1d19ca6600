-- ===== src/Kernel/Mktime.antt =====
-- kernel/mktime.c: seconds since 1 January 1970.
pub mod Calendar
use linux_0_11_notes.Prelude.{
  [], get_or, if◌then◌else◌, ltb, not, ℕ, ℤ, ◌%◌, ◌&&◌, ◌*◌, ◌+◌, ◌-◌, ◌/◌, ◌==◌, ◌^◌, ◌∷◌,
}
use linux_0_11_notes.Kernel.Format.{as_int}

pub record Tm : Type 0 where
  pub sec : ℕ
  pub minute : ℕ
  pub hour : ℕ
  pub mday : ℕ
  pub mon : ℕ
  pub year : ℕ

abbrev pub minute_secs : ℕ
minute_secs = 60

abbrev pub hour_secs : ℕ
hour_secs = 60 * minute_secs

abbrev pub day_secs : ℕ
day_secs = 24 * hour_secs

abbrev pub year_secs : ℕ
year_secs = 365 * day_secs

-- `month[]`, of a leap year.
abbrev pub month : ℕ → ℕ
month m =
    day_secs * get_or (0 ∷ 31 ∷ 60 ∷ 91 ∷ 121 ∷ 152 ∷ 182 ∷ 213 ∷ 244 ∷ 274 ∷ 305 ∷ 335 ∷ []) m 0

-- All is computed in an int or a long, of 32 bits, which wrap around. Years before 1970 are the caller's
-- mistake; `mon` counts from 0 and `mday` from 1.
unfoldable pub kernel_mktime : Tm → ℤ
kernel_mktime tm =
    let year : ℕ = tm.year - 70 in
    let res : ℕ = (year_secs * year + day_secs * ((year + 1) / 4)) % 2 ^ 32 in
    let res : ℕ = (res + month tm.mon) % 2 ^ 32 in
    let res : ℕ =
      if ltb 1 tm.mon && not ((year + 2) % 4 == 0)
      then (res + (2 ^ 32 - day_secs)) % 2 ^ 32
      else res in
    let res : ℕ = (res + day_secs * tm.mday + (2 ^ 32 - day_secs)) % 2 ^ 32 in
    as_int ((res + hour_secs * tm.hour + minute_secs * tm.minute + tm.sec) % 2 ^ 32)
