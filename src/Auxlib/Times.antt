-- ===== src/Auxlib/Times.antt =====
-- Dates that go back to times (auxlib/oslib.go).
use runtimelua.Common.{
  ℕ, ◌<◌, ◌≡◌, refl, ap, ◌∙◌, true, false, some, List, [], ◌∷◌, Bytes, codes, bytes_eq,
}
use runtimelua.Common.Text.{has_prefix}
use runtimelua.Lua.{LValue, number, string, table, Entries}
use runtimelua.Luaconv.Plain.{exact_bound}
use runtimelua.Auxlib.Oslib.{
  Instant, Clock, pushed, raw_get_string, int_or, get_int_field, trim_bang, date_table,
  table_or_text, date_at, os_date, os_time,
}
use runtimelua.Auxlib.Dates.{trim-prefix}

-- The six numbers of an instant that `time.Date` takes.
abbrev pub civil : Clock → Instant → ℕ
civil o t = o.date (o.year t) (o.month t) (o.day t) (o.hour t) (o.minute t) (o.second t)

-- The Unix seconds of the beginning of the year 10000.
abbrev pub year_10000 : ℕ
year_10000 = 253402300800

-- What is documented of the package time and of Go's conversions: float64 holds the integers below
-- 2 ^ 53. From 1970 to 9999 the fields of a date, in UTC and in the local zone, are among them; and
-- in UTC `time.Date` undoes the fields of a time.
pub record ClockLaws (o : Clock) : Type 0 where
  pub exact : (n : ℕ) → n < exact_bound → o.to_int (o.of_int n) ≡ n
  pub small_year : (t : Instant) → t.seconds < year_10000 → o.year t < exact_bound
  pub small_month : (t : Instant) → t.seconds < year_10000 → o.month t < exact_bound
  pub small_day : (t : Instant) → t.seconds < year_10000 → o.day t < exact_bound
  pub small_hour : (t : Instant) → t.seconds < year_10000 → o.hour t < exact_bound
  pub small_minute : (t : Instant) → t.seconds < year_10000 → o.minute t < exact_bound
  pub small_second : (t : Instant) → t.seconds < year_10000 → o.second t < exact_bound
  pub civil_utc : (s : ℕ) → s < year_10000 → civil o (record { utc = true; seconds = s }) ≡ s

os_time-date_table :
    (o : Clock) (laws : ClockLaws o) (t : Instant) (rest : List LValue)
    → t.seconds < year_10000
    → o.check_table 1 (table (date_table o t) ∷ rest) ≡ some (date_table o t)
    → os_time o (table (date_table o t) ∷ rest) ≡ pushed (number (o.of_int (civil o t)))
unfolding os_time get_int_field raw_get_string int_or date_table bytes_eq
os_time-date_table o laws t rest short h =
    rw (h, os_time)
      (rw
        (
          laws.exact (o.year t) (laws.small_year t short),
          laws.exact (o.month t) (laws.small_month t short),
          laws.exact (o.day t) (laws.small_day t short),
          laws.exact (o.hour t) (laws.small_hour t short),
          laws.exact (o.minute t) (laws.small_minute t short),
          laws.exact (o.second t) (laws.small_second t short),
        )
        refl)

os_date_table :
    (o : Clock) (cfmt : Bytes) (rest : List LValue)
    → has_prefix (trim_bang cfmt) (codes "*t") ≡ true
    → o.check_string 1 (string cfmt ∷ rest) ≡ some cfmt
    → os_date o (string cfmt ∷ rest) ≡ date_at o (string cfmt ∷ rest) (trim_bang cfmt)
unfolding os_date
os_date_table o cfmt rest star h =
    rw (h, os_date) (ap (date_at o (string cfmt ∷ rest)) (trim-prefix cfmt))

table_at :
    (o : Clock) (t : Instant) (cfmt : Bytes)
    → has_prefix cfmt (codes "*t") ≡ true
    → table_or_text o t cfmt ≡ pushed (table (date_table o t))
unfolding table_or_text
table_at o t cfmt star = rw (star, table_or_text) refl

-- For times from 1970 to 9999, with a format that starts with *t behind any exclamation marks: the table that date pushes without
-- a time, given to time, gives the current time. The table that it pushes for a time is that of the
-- local zone, and time takes it as one in UTC; so it gives the time of the zone's clock and not the
-- time itself, where the two differ. Given what is documented of the package time.
pub os_time-os_date :
    (o : Clock) (laws : ClockLaws o) (cfmt : Bytes) (time : LValue) (s : ℕ)
    → o.now < year_10000
    → s < year_10000
    → has_prefix (trim_bang cfmt) (codes "*t") ≡ true
    → o.check_string 1 (string cfmt ∷ []) ≡ some cfmt
    → o.check_string 1 (string cfmt ∷ time ∷ []) ≡ some cfmt
    → o.check_int64 2 (string cfmt ∷ time ∷ []) ≡ some s
    → ((t : Entries) → o.check_table 1 (table t ∷ []) ≡ some t)
    → (t : Entries) × (os_date o (string cfmt ∷ []) ≡ pushed (table t))
      × (os_time o (table t ∷ []) ≡ pushed (number (o.of_int o.now)))
      × (u : Entries) × (os_date o (string cfmt ∷ time ∷ []) ≡ pushed (table u))
      × (os_time o (table u ∷ [])
          ≡ pushed (number (o.of_int (civil o (record { utc = false; seconds = s })))))
unfolding date_at
os_time-os_date o laws cfmt time s recent short star one two given is_table =
    let now : Instant = record { utc = true; seconds = o.now } in
    let given_time : Instant = record { utc = false; seconds = s } in
    (
      date_table o now,
      os_date_table o cfmt [] star one ∙ table_at o now (trim_bang cfmt) star,
      os_time-date_table o laws now [] recent (is_table (date_table o now))
          ∙ ap (λ n. pushed (number (o.of_int n))) (laws.civil_utc o.now recent),
      date_table o given_time,
      os_date_table o cfmt (time ∷ []) star two
          ∙ rw (date_at, given) (table_at o given_time (trim_bang cfmt) star),
      os_time-date_table o laws given_time [] short (is_table (date_table o given_time)),
    )
