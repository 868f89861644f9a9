-- ===== src/Auxlib/Dates.antt =====
-- The dates of auxlib/oslib.go.
use runtimelua.Common.{
  ℕ, ◌≡◌, refl, ap, ◌∙◌, arith, inl, inr, false, some, [], ◌∷◌, Bytes, codes, if◌then◌else◌,
  Bool-cases,
}
use runtimelua.Common.Text.{has_prefix}
use runtimelua.Lua.{LValue, string, table}
use runtimelua.Auxlib.Expand.{expand, strftime-expand}
use runtimelua.Auxlib.Oslib.{
  Instant, Clock, pushed, trim_bang, date_table, push_date, push_text, table_or_text, date_at,
  os_date,
}

-- The text or the table of an instant.
abbrev pub dated : Clock → Instant → Bytes → LValue
dated o t cfmt =
    if has_prefix cfmt (codes "*t")
    then table (date_table o t)
    else string (expand (o.format t) (o.weekday t) cfmt)

table_or_text_lem :
    (o : Clock) (t : Instant) (cfmt : Bytes) → table_or_text o t cfmt ≡ pushed (dated o t cfmt)
unfolding table_or_text push_date push_text
table_or_text_lem o t cfmt = elim (Bool-cases (has_prefix cfmt (codes "*t"))) [
  | inl h ↦ rw h refl
  | inr h ↦ rw h (ap push_text (strftime-expand (o.format t) (o.weekday t) cfmt))
]

pub trim-prefix :
    (cfmt : Bytes) → (if has_prefix cfmt (codes "!") then trim_bang cfmt else cfmt) ≡ trim_bang cfmt
unfolding has_prefix trim_bang
trim-prefix [] = refl
trim-prefix (c ∷ cs) = ground arith

-- date with a format and a time always pushes the table, at a format that starts with *t behind any
-- exclamation marks, or the text of the format without these marks; and it takes the time in the
-- local zone, with an exclamation mark before the format or without.
pub os_date_lem :
    (o : Clock) (cfmt : Bytes) (time : LValue) (s : ℕ)
    → o.check_string 1 (string cfmt ∷ time ∷ []) ≡ some cfmt
    → o.check_int64 2 (string cfmt ∷ time ∷ []) ≡ some s
    → os_date o (string cfmt ∷ time ∷ [])
      ≡ pushed (dated o (record { utc = false; seconds = s }) (trim_bang cfmt))
unfolding os_date date_at
os_date_lem o cfmt time s h h' =
    rw (os_date, h)
      (ap (date_at o (string cfmt ∷ time ∷ [])) (trim-prefix cfmt)
        ∙ rw (date_at, h')
            (table_or_text_lem o (record { utc = false; seconds = s }) (trim_bang cfmt)))
