-- ===== src/Utils/Time.antt =====
-- `system_time_to_filetime` of utils.rs. A time is the seconds and nanoseconds since 1970 that
-- `duration_since` reports, or nothing for a time before.
use rust_smb_server.Prelude.{
  zero, suc, ◌==◌, ◌&&◌, ◌||◌, not, if◌then◌else◌, Bool, ◌≡◌, refl, ℕ, ◌+◌, ◌*◌, ◌/◌, ◌^◌, ◌%◌, ◌<◌,
  Option, none, some, arith,
}

pub record Duration : Type 0 where
  pub as_secs : ℕ
  pub subsec_nanos : ℕ

abbrev pub filetime_offset : ℕ
filetime_offset = 116_444_736_000_000_000

-- The sum is one of u64 values: beyond 64 bits a release build wraps.
unfoldable pub system_time_to_filetime : Option Duration → ℕ
system_time_to_filetime none = 0
system_time_to_filetime (some d) =
    (filetime_offset + d.as_secs * 10_000_000 % 2 ^ 64 + d.subsec_nanos / 100) % 2 ^ 64

-- Leap years of the Gregorian calendar.
abbrev is_leap : ℕ → Bool
is_leap year = year % 4 == 0 && (not (year % 100 == 0) || year % 400 == 0)

-- The days of `n` years, the first of which is `year`.
unfoldable pub days_of_years : ℕ → ℕ → ℕ
days_of_years year zero = 0
days_of_years year (suc n) = (if is_leap year then 366 else 365) + days_of_years (year + 1) n

days_to_1970 : days_of_years 1601 369 ≡ 134_774
unfolding days_of_years
days_to_1970 = refl

-- The FILETIME of a time after 1970 is the number of 100-nanosecond intervals since the start
-- of 1601, where the 369 years up to 1970 have their days by the rule of the Gregorian
-- calendar. The nanoseconds are below one second, and the seconds below 1.8 * 10^12.
pub system_time_to_filetime-ticks :
    (d : Duration)
    → d.subsec_nanos < 1_000_000_000
    → d.as_secs < 1_800_000_000_000
    → system_time_to_filetime (some d)
      ≡ (days_of_years 1601 369 * 86_400 + d.as_secs) * 10_000_000 + d.subsec_nanos / 100
unfolding system_time_to_filetime
system_time_to_filetime-ticks d nanos secs = omega (arith, days_to_1970)
