-- ===== src/Scripts/Catalog.antt =====
-- The loop over the pool, for every answer of the runtimes: when it ends, and how.
use runtimelua.Common.{
  ℕ, zero, suc, ◌≤◌, ◌<◌, ◌≡◌, refl, sym, ap, subst, ◌∙◌, arith, ◌⊎◌, inl, inr, Option, none, some,
  List, [], ◌∷◌, ◌++◌, Bytes, ◌==◌, if◌then◌else◌, length, length-append,
}
use mathlib.Core.List.{append_assoc, append-nil}
use runtimelua.Event.Object.{FileCache}
use runtimelua.Scripts.Watch.{
  Sent, hotfixes, patches, Answer, accepts, refuses, silent, Reload, patched, discarded, blocked,
  waiting, next_runtime, hotfix_process,
}

-- The first runtime of the pool gets a hotfix, each other one a patch, where some have it already.
abbrev pub message : ℕ → ℕ → Sent
message completes r = if completes == 0 then hotfixes r else patches r

-- What the runtimes of the pool say of a script, one after the other, up to the first that does not
-- take it: all take it, and leave the file so; one refuses it; or one does not answer.
pub data Verdict : Type 0 where
  all_take : FileCache → Verdict
  refused unanswered : Verdict

abbrev pub verdict : (Sent → FileCache → Answer) → FileCache → ℕ → List ℕ → Verdict
verdict answer m completes [] = all_take m
verdict answer m completes (r ∷ pool) = elim (answer (message completes r) m) [
  | accepts m' ↦ verdict answer m' (suc completes) pool
  | refuses e ↦ refused
  | silent ↦ unanswered
]

-- The same of a reload, if it goes on no more.
abbrev pub ended : Reload → Option Verdict
ended (patched m pool log) = some (all_take m)
ended (discarded e pool log) = some refused
ended (blocked pool log) = some unanswered
ended waiting = none

Answer-cases :
    (r : Answer)
    → ((m : FileCache) × (r ≡ accepts m)) ⊎ (((e : Bytes) × (r ≡ refuses e)) ⊎ (r ≡ silent))
Answer-cases (accepts m) = inl (m, refl)
Answer-cases (refuses e) = inr (inl (e, refl))
Answer-cases silent = inr (inr refl)

taken :
    (answer : Sent → FileCache → Answer) (m m' : FileCache) (r completes : ℕ) (pool : List ℕ)
    → answer (message completes r) m ≡ accepts m'
    → verdict answer m completes (r ∷ pool) ≡ verdict answer m' (suc completes) pool
taken answer m m' r completes pool ok = ground (arith, ok)

go_on :
    (answer : Sent → FileCache → Answer) (m m' : FileCache) (r completes fuel : ℕ) (pool : List ℕ)
    (log : List Sent)
    → answer (message completes r) m ≡ accepts m'
    → suc completes < length (pool ++ (r ∷ []))
    → hotfix_process (suc fuel) answer m (r ∷ pool) completes log
      ≡ hotfix_process fuel answer m'
          (pool ++ (r ∷ []))
          (suc completes)
          (log ++ (message completes r ∷ []))
unfolding hotfix_process next_runtime
go_on answer m m' r completes fuel pool log ok h = ground (arith, ok)

ended-hotfix_process :
    (answer : Sent → FileCache → Answer) (m : FileCache) (r : ℕ) (todo finished : List ℕ) (fuel : ℕ)
    (log : List Sent)
    → length (r ∷ todo) ≤ fuel
    → ended (hotfix_process fuel answer m ((r ∷ todo) ++ finished) (length finished) log)
      ≡ some (verdict answer m (length finished) (r ∷ todo))
unfolding hotfix_process next_runtime
ended-hotfix_process answer m r todo finished zero log h = absurd (omega arith)
ended-hotfix_process answer m r [] finished (suc fuel) log h =
    elim (Answer-cases (answer (message (length finished) r) m)) [
      | inl (m', ok) ↦ ground (arith, ok, length-append finished (r ∷ []))
      | inr (inl (e, bad)) ↦ ground (arith, bad)
      | inr (inr none_comes) ↦ ground (arith, none_comes)
    ]
ended-hotfix_process answer m r (q ∷ todo) finished (suc fuel) log h =
    elim (Answer-cases (answer (message (length finished) r) m)) [
      | inl (m', ok) ↦
          let more = finished ++ (r ∷ []) in
          let log' = log ++ (message (length finished) r ∷ []) in
          let count : length more ≡ suc (length finished) =
            omega (arith, length-append finished (r ∷ [])) in
          let step = go_on answer m m' r (length finished) fuel ((q ∷ todo) ++ finished) log ok (
            omega (
              arith,
              length-append ((q ∷ todo) ++ finished) (r ∷ []),
              length-append (q ∷ todo) finished,
            )) in
          let rest = ended-hotfix_process answer m' q todo more fuel log' (omega arith) in
          ap ended step
          ∙ ap (λ pool. ended (hotfix_process fuel answer m' pool (suc (length finished)) log'))
              (append_assoc (q ∷ todo) finished (r ∷ []))
          ∙ subst
              (λ n.
                ended (hotfix_process fuel answer m' ((q ∷ todo) ++ more) n log')
                ≡ some (verdict answer m' n (q ∷ todo)))
              count rest
          ∙ ap some (sym (taken answer m m' r (length finished) (q ∷ todo) ok))
      | inr (inl (e, bad)) ↦ ground (arith, bad)
      | inr (inr none_comes) ↦ ground (arith, none_comes)
    ]

-- The loop over a pool that is not empty goes on for at most as many rounds as there are runtimes,
-- and then has come to what they say.
pub ended_pool :
    (answer : Sent → FileCache → Answer) (m : FileCache) (r : ℕ) (pool : List ℕ) (fuel : ℕ)
    → length (r ∷ pool) ≤ fuel
    → ended (hotfix_process fuel answer m (r ∷ pool) 0 []) ≡ some (verdict answer m 0 (r ∷ pool))
ended_pool answer m r pool fuel h =
    subst
      (λ runtimes.
        ended (hotfix_process fuel answer m runtimes 0 []) ≡ some (verdict answer m 0 (r ∷ pool)))
      (append-nil (r ∷ pool)) (ended-hotfix_process answer m r pool [] fuel [] h)

-- Over a pool that is and stays empty the loop goes on for ever.
pub empty-waits :
    (fuel completes : ℕ) (answer : Sent → FileCache → Answer) (m : FileCache) (log : List Sent)
    → hotfix_process fuel answer m [] completes log ≡ waiting
unfolding hotfix_process
empty-waits zero completes answer m log = refl
empty-waits (suc fuel) completes answer m log = empty-waits fuel completes answer m log
