-- ===== src/Auxlib/Oslib.antt =====
-- auxlib/oslib.go: the functions of the Lua library os. What Go's package time computes is a
-- parameter.
use runtimelua.Common.{
  ℕ, ◌-◌, ◌^◌, Bool, true, false, Option, none, some, List, [], ◌∷◌, Bytes, codes, bytes_eq, ◌==◌,
  if◌then◌else◌, length, ltb,
}
use runtimelua.Common.Text.{has_prefix}
use runtimelua.Common.Word.{sub64}
use runtimelua.Lua.{LValue, nil, bool, number, string, table, Entries, end, entry}
use runtimelua.Auxlib.Strftime.{strftime}

-- A `time.Time`: its Unix seconds, and whether its zone is UTC or the local one.
pub record Instant : Type 0 where
  pub utc : Bool
  pub seconds : ℕ

-- What the functions call: the checks of gopher-lua, whose `none` is the error that they raise;
-- `time.Now()`, the methods of a time, `Format` with a layout, `time.Date` in UTC as Unix seconds,
-- `float64(time.Now().Sub(startedAt)) / float64(time.Second)`, and Go's conversions between an int
-- and a float64.
pub record Clock : Type 0 where
  pub check_string : ℕ → List LValue → Option Bytes
  pub check_int64 : ℕ → List LValue → Option ℕ
  pub check_table : ℕ → List LValue → Option Entries
  pub now : ℕ
  pub since_start : ℕ
  pub year : Instant → ℕ
  pub month : Instant → ℕ
  pub day : Instant → ℕ
  pub hour : Instant → ℕ
  pub minute : Instant → ℕ
  pub second : Instant → ℕ
  pub weekday : Instant → ℕ
  pub year_day : Instant → ℕ
  pub format : Instant → Bytes → Bytes
  pub date : ℕ → ℕ → ℕ → ℕ → ℕ → ℕ → ℕ
  pub of_int : ℕ → ℕ
  pub to_int : ℕ → ℕ

-- How a function ends: with a value, an error about an argument, or an index out of range.
pub data Pushed : Type 0 where
  pushed : LValue → Pushed
  type_error : ℕ → Pushed
  out_of_range : Pushed

-- `tb.RawGetString(key)`.
unfoldable pub raw_get_string : Bytes → Entries → LValue
raw_get_string key end = nil
raw_get_string key (entry (string k) v es) = if bytes_eq k key then v else raw_get_string key es
raw_get_string key (entry _ v es) = raw_get_string key es

unfoldable pub int_or : Clock → ℕ → LValue → ℕ
int_or o d (number p) = o.to_int p
int_or o d _ = d

unfoldable pub get_int_field : Clock → Entries → Bytes → ℕ → ℕ
unfolding int_or raw_get_string
get_int_field o tb key d = int_or o d (raw_get_string key tb)

unfoldable pub os_clock : Clock → Pushed
os_clock o = pushed (number o.since_start)

unfoldable pub os_diff_time : Clock → List LValue → Pushed
os_diff_time o args = elim (o.check_int64 1 args) [
  | none ↦ type_error 1
  | some a ↦ elim (o.check_int64 2 args) [
    | none ↦ type_error 2
    | some b ↦ pushed (number (o.of_int (sub64 a b)))
  ]
]

-- `strings.TrimLeft(cfmt, "!")`.
unfoldable pub trim_bang : Bytes → Bytes
trim_bang [] = []
trim_bang (c ∷ cs) = if c == b'!' then trim_bang cs else c ∷ cs

-- The table of `*t`.
unfoldable pub date_table : Clock → Instant → Entries
date_table o t = entry (string (codes "year")) (number (o.of_int (o.year t))) (
    entry (string (codes "month")) (number (o.of_int (o.month t))) (
      entry (string (codes "day")) (number (o.of_int (o.day t))) (
        entry (string (codes "hour")) (number (o.of_int (o.hour t))) (
          entry (string (codes "min")) (number (o.of_int (o.minute t))) (
            entry (string (codes "sec")) (number (o.of_int (o.second t))) (
              entry (string (codes "wday")) (number (o.of_int (o.weekday t))) (
                entry (string (codes "yday")) (number (o.of_int (o.year_day t)))
                  (entry (string (codes "isdst")) (bool false) end))))))))

-- `l.Push(lua.LString(strftime(t, cfmt)))`.
unfoldable pub push_text : Option Bytes → Pushed
push_text none = out_of_range
push_text (some s) = pushed (string s)

unfoldable pub push_date : Clock → Instant → Bytes → Pushed
unfolding push_text
push_date o t cfmt = push_text (strftime (o.format t) (o.weekday t) cfmt)

unfoldable pub table_or_text : Clock → Instant → Bytes → Pushed
unfolding date_table push_date
table_or_text o t cfmt =
    if has_prefix cfmt (codes "*t") then pushed (table (date_table o t)) else push_date o t cfmt

-- `if L.GetTop() >= 2 { t = time.Unix(L.CheckInt64(2), 0) }`.
unfoldable pub date_at : Clock → List LValue → Bytes → Pushed
unfolding table_or_text
date_at o args cfmt =
    if ltb 1 (length args)
    then elim (o.check_int64 2 args) [
      | none ↦ type_error 2
      | some s ↦ table_or_text o (record { utc = false; seconds = s }) cfmt
    ]
    else table_or_text o (record { utc = true; seconds = o.now }) cfmt

unfoldable pub os_date : Clock → List LValue → Pushed
unfolding trim_bang date_at push_date
os_date o [] = push_date o (record { utc = true; seconds = o.now }) (codes "%c")
os_date o (a ∷ args) = elim (o.check_string 1 (a ∷ args)) [
  | none ↦ type_error 1
  | some cfmt ↦ date_at o (a ∷ args) (if has_prefix cfmt (codes "!") then trim_bang cfmt else cfmt)
]

-- An int of -1, as its pattern.
abbrev pub minus_one : ℕ
minus_one = 2 ^ 64 - 1

unfoldable pub os_time : Clock → List LValue → Pushed
unfolding get_int_field
os_time o [] = pushed (number (o.of_int o.now))
os_time o (a ∷ args) = elim (o.check_table 1 (a ∷ args)) [
  | none ↦ type_error 1
  | some tbl ↦
      let sec = get_int_field o tbl (codes "sec") 0 in
      let min = get_int_field o tbl (codes "min") 0 in
      let hour = get_int_field o tbl (codes "hour") 12 in
      let day = get_int_field o tbl (codes "day") minus_one in
      let month = get_int_field o tbl (codes "month") minus_one in
      let year = get_int_field o tbl (codes "year") minus_one in
      pushed (number (o.of_int (o.date year month day hour min sec)))
]

-- The table that names the functions of the library.
unfoldable pub os_funcs : List (Bytes × (Clock → List LValue → Pushed))
os_funcs =
    (codes "clock", λ o args. os_clock o)
    ∷ (codes "difftime", os_diff_time)
    ∷ (codes "date", os_date)
    ∷ (codes "time", os_time)
    ∷ []
