-- ===== src/Tests/Logs.antt =====
-- The logger, the dates and the options on concrete inputs.
use runtimelua.Common.{
  ◌/◌, ◌%◌, ◌*◌, ◌+◌, Option, arith, ◌≡◌, ◌⊎◌, refl, List, [], ◌∷◌, some, none, codes, true, false,
}
use runtimelua.Lua.{LValue, bool, string, number, table, Entries, end, entry}
use runtimelua.Logger.{LogField, info, panics, logged, log_at, collapse_to_log}
use runtimelua.Logger.Keys.{AnyEntry, HasNoName, log_at-panics}
use runtimelua.Auxlib.Oslib.{Clock, pushed, trim_bang, os_date, os_time}
use runtimelua.Common.Text.{has_prefix}
use runtimelua.Auxlib.Times.{ClockLaws, civil, os_time-os_date}
use runtimelua.Options.{RuntimeOption, with_lib_base64, with_lib_md5, with_module_event}
use runtimelua.Tests.Values.{api}

abbrev flagged : Entries
flagged = entry (string (codes "user")) (number 8) (entry (bool true) (string (codes "x")) end)

log_at-panics_example :
    ((log_at api (λ n. codes "n") info (some (codes "hi")) (table flagged) ≡ panics)
      × AnyEntry (HasNoName api (λ n. codes "n")) flagged)
    ⊎ ((fs : List LogField) × (collapse_to_log api (λ n. codes "n") flagged ≡ some fs)
        × (log_at api (λ n. codes "n") info (some (codes "hi")) (table flagged)
            ≡ logged info (codes "hi") fs)
        × (AnyEntry (HasNoName api (λ n. codes "n")) flagged → ⊥))
log_at-panics_example = log_at-panics api (λ n. codes "n") info (codes "hi") flagged

abbrev first_table : List LValue → Option Entries
first_table (table t ∷ rest) = some t
first_table _ = none

abbrev clock : Clock
clock = record {
  check_string = λ i args. some (codes "!%Y");
  check_int64 = λ i args. some 86400;
  check_table = λ i args. none;
  now = 0;
  since_start = 0;
  year = λ t. 1970;
  month = λ t. 1;
  day = λ t. 2;
  hour = λ t. 0;
  minute = λ t. 0;
  second = λ t. 0;
  weekday = λ t. 5;
  year_day = λ t. 2;
  format = λ t layout. layout;
  date = λ y m d h mi s. 0;
  of_int = λ n. n;
  to_int = λ n. n;
}

abbrev options : List RuntimeOption
options = with_lib_base64 ∷ with_module_event 1 ∷ with_lib_md5 ∷ []

-- A clock without years and months, which counts the days from 1970 on.
abbrev daily : Clock
daily = record clock {
  check_string = λ i args. some (codes "!*t");
  check_table = λ i args. first_table args;
  now = 5;
  day = λ t. t.seconds / 86400;
  hour = λ t. t.seconds / 3600 % 24;
  minute = λ t. t.seconds / 60 % 60;
  second = λ t. t.seconds % 60;
  date = λ y m d h mi s. d * 86400 + h * 3600 + mi * 60 + s;
}

daily-ClockLaws : ClockLaws daily
daily-ClockLaws = record {
  exact = λ n h. refl;
  small_year = λ t h. omega arith;
  small_month = λ t h. omega arith;
  small_day = λ t h. omega arith;
  small_hour = λ t h. omega arith;
  small_minute = λ t h. omega arith;
  small_second = λ t h. omega arith;
  civil_utc = λ s h. omega arith;
}

star : has_prefix (trim_bang (codes "!*t")) (codes "*t") ≡ true
unfolding has_prefix trim_bang
star = refl

os_time-os_date_example :
    (t : Entries) × (os_date daily (string (codes "!*t") ∷ []) ≡ pushed (table t))
    × (os_time daily (table t ∷ []) ≡ pushed (number 5))
    × (u : Entries) × (os_date daily (string (codes "!*t") ∷ number 86400 ∷ []) ≡ pushed (table u))
    × (os_time daily (table u ∷ [])
        ≡ pushed (number (civil daily (record { utc = false; seconds = 86400 }))))
os_time-os_date_example =
    os_time-os_date daily daily-ClockLaws (codes "!*t") (number 86400) 86400 (omega arith)
      (omega arith) star refl refl refl (λ t. refl)
