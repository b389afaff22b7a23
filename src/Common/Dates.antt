-- ===== src/Common/Dates.antt =====
-- Instants in milliseconds since 1970, and the text that `toISOString` gives for the years up to
-- 9999 (`Date` of the language).
use Prim.Native.Nat.{ℕ, ◌+◌, ◌-◌, ◌*◌, ◌/◌, ◌%◌}
use mathlib.Core.List.{[], ◌∷◌, ◌++◌}
use nginx_admin.Common.Tests.{leb, ltb, if◌then◌else◌}
use nginx_admin.Common.Strings.{Text}

abbrev digit : ℕ → ℕ
digit n = b'0' + n % 10

abbrev two : ℕ → Text
two n = digit (n / 10) ∷ digit n ∷ []

abbrev three : ℕ → Text
three n = digit (n / 100) ∷ two n

abbrev four : ℕ → Text
four n = digit (n / 1000) ∷ three n

pub record Civil : Type 0 where
  pub year : ℕ
  pub month : ℕ
  pub day : ℕ

-- The proleptic Gregorian date of a day counted from 1970-01-01: years begin in March, and an
-- era is 400 years of 146097 days.
unfoldable pub civil : ℕ → Civil
civil days =
    let z = days + 719468 in
    let era = z / 146097 in
    let doe = z % 146097 in
    let yoe = (doe + doe / 36524 - doe / 1460 - doe / 146096) / 365 in
    let doy = doe + yoe / 100 - 365 * yoe - yoe / 4 in
    let mp = (5 * doy + 2) / 153 in
    let month = if ltb mp 10 then mp + 3 else mp - 9 in
    record {
      year = yoe + era * 400 + (if leb month 2 then 1 else 0);
      month = month;
      day = doy - (153 * mp + 2) / 5 + 1;
    }

-- `date.toISOString()`
unfoldable pub to_iso_string : ℕ → Text
unfolding civil
to_iso_string t =
    let date = civil (t / 86400000) in
    let ms = t % 86400000 in
    four date.year
    ++ (b'-'
        ∷ (two date.month
            ++ (b'-'
                ∷ (two date.day
                    ++ (b'T'
                        ∷ (two (ms / 3600000)
                            ++ (b':'
                                ∷ (two (ms / 60000 % 60)
                                    ++ (b':'
                                        ∷ (two (ms / 1000 % 60)
                                            ++ (b'.' ∷ (three (ms % 1000) ++ b'Z' ∷ []))))))))))))
