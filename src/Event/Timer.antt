-- ===== src/Event/Timer.antt =====
-- runtime_event_timer.go: `TimerEvent`. A `time.Duration` is an int64 pattern in nanoseconds.
use runtimelua.Common.{
  ℕ, ◌-◌, ◌≡◌, Bool, false, not, arith, ◌==◌, if◌then◌else◌, ltb, Bool-cases, ltb→lt, ltb→ge, inl,
  inr,
}
use runtimelua.Common.Word.{sub64, is_pos64, IsNat64, is_pos64-sub64, not-is_pos64-sub64}

pub record TimerEvent : Type 0 where
  pub value : ℕ
  pub delay : ℕ
  pub period : ℕ

unfoldable pub load : TimerEvent → Bool
load e = e.value == 1

unfoldable pub store : TimerEvent → Bool → TimerEvent
store e v = record e { value = if v then 1 else 0 }

unfoldable pub valid : TimerEvent → Bool
unfolding load
valid e = load e

unfoldable pub continue : TimerEvent → Bool
unfolding load
continue e = if not (load e) then false else is_pos64 e.delay

unfoldable pub update : TimerEvent → ℕ → TimerEvent
update e elapse =
    let e' = record e { delay = sub64 e.delay elapse } in
    if is_pos64 e'.delay then e' else record e' { delay = e.period }

unfoldable pub stop : TimerEvent → TimerEvent
unfolding store
stop e = store e false

-- An update counts the delay down by the elapsed time, and restarts it from the period at the
-- first update by which it has run out; the flag and the period are left alone. Both times are
-- at most the largest int64.
pub update_lem :
    (e : TimerEvent) (elapse : ℕ)
    → IsNat64 e.delay
    → IsNat64 elapse
    → update e elapse
      ≡ record e { delay = if ltb elapse e.delay then e.delay - elapse else e.period }
unfolding update
update_lem e elapse hd he = elim (Bool-cases (ltb elapse e.delay)) [
  | inl h ↦ ground (arith, is_pos64-sub64 e.delay elapse hd he (ltb→lt _ _ h))
  | inr h ↦ ground (arith, not-is_pos64-sub64 e.delay elapse hd he (ltb→ge _ _ h))
]
