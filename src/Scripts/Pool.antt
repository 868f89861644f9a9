-- ===== src/Scripts/Pool.antt =====
-- What a reload sends, to which runtimes, and in which order.
use runtimelua.Common.{
  ℕ, suc, ◌+◌, ◌≤◌, ◌<◌, ◌≡◌, refl, List, [], ◌∷◌, ◌++◌, map, Bytes, length, length-append, All,
  arith,
}
use mathlib.Core.List.{append_assoc, append-nil}
use native.Mathlib.Nat.{zero-add, add-zero, suc-add}
use runtimelua.Event.Object.{FileCache}
use runtimelua.Scripts.Watch.{
  Sent, hotfixes, patches, Answer, accepts, refuses, patched, discarded, hotfix_process,
}

patch_step :
    (fuel r completes : ℕ) (answer : Sent → FileCache → Answer) (m : FileCache) (pool : List ℕ)
    (log : List Sent)
    → 0 < completes
    → answer (patches r) m ≡ accepts m
    → suc completes < length (pool ++ (r ∷ []))
    → hotfix_process (suc fuel) answer m (r ∷ pool) completes log
      ≡ hotfix_process fuel answer m (pool ++ (r ∷ [])) (suc completes) (log ++ (patches r ∷ []))
unfolding hotfix_process
patch_step fuel r completes answer m pool log p ok h = ground (arith, ok)

-- The patches go round the pool as long as they succeed.
advance :
    (answer : Sent → FileCache → Answer) (m : FileCache) (pre queue : List ℕ) (fuel completes : ℕ)
    (log : List Sent)
    → 0 < completes
    → completes + length pre < length (pre ++ queue)
    → All (λ r. answer (patches r) m ≡ accepts m) pre
    → hotfix_process (length pre + fuel) answer m (pre ++ queue) completes log
      ≡ hotfix_process fuel answer m
          (queue ++ pre)
          (completes + length pre)
          (log ++ map patches pre)
advance answer m [] queue fuel completes log p h ok =
    rw (zero-add, add-zero, append-nil queue, append-nil log)
advance answer m (r ∷ pre) queue fuel completes log p h ok =
    rw
      (
        suc-add,
        patch_step (length pre + fuel) r completes answer m (pre ++ queue) log p ok.0
            (omega (arith, length-append (pre ++ queue) (r ∷ []))),
        append_assoc pre queue (r ∷ []),
        advance answer m pre (queue ++ (r ∷ [])) fuel (suc completes) (log ++ (patches r ∷ []))
            (omega arith)
            (omega (
              arith,
              length-append pre (queue ++ (r ∷ [])),
              length-append queue (r ∷ []),
              length-append pre queue,
            ))
            ok.1,
        append_assoc queue (r ∷ []) pre,
        append_assoc log (patches r ∷ []) (map patches pre),
      )
      (let count : suc completes + length pre ≡ completes + suc (length pre) = omega arith in
        rw count)

first_step :
    (fuel r : ℕ) (answer : Sent → FileCache → Answer) (m m' : FileCache) (pool : List ℕ)
    → answer (hotfixes r) m ≡ accepts m'
    → 0 < length pool
    → hotfix_process (suc fuel) answer m (r ∷ pool) 0 []
      ≡ hotfix_process fuel answer m' (pool ++ (r ∷ [])) 1 (hotfixes r ∷ [])
unfolding hotfix_process
first_step fuel r answer m m' pool ok h = ground (arith, ok, length-append pool (r ∷ []))

last_step :
    (r completes : ℕ) (answer : Sent → FileCache → Answer) (m : FileCache) (pool : List ℕ)
    (log : List Sent)
    → 0 < completes
    → answer (patches r) m ≡ accepts m
    → length (pool ++ (r ∷ [])) ≤ suc completes
    → hotfix_process 1 answer m (r ∷ pool) completes log
      ≡ patched m (pool ++ (r ∷ [])) (log ++ (patches r ∷ []))
unfolding hotfix_process
last_step r completes answer m pool log p ok h = ground (arith, ok)

-- The rest of the round, when some runtimes have the script already.
rest_of_round :
    (answer : Sent → FileCache → Answer) (m : FileCache) (r : ℕ) (todo finished : List ℕ)
    (log : List Sent)
    → 0 < length finished
    → All (λ x. answer (patches x) m ≡ accepts m) (r ∷ todo)
    → hotfix_process (length (r ∷ todo)) answer m ((r ∷ todo) ++ finished) (length finished) log
      ≡ patched m (finished ++ (r ∷ todo)) (log ++ map patches (r ∷ todo))
rest_of_round answer m r [] finished log p ok =
    last_step r (length finished) answer m finished log p ok.0
      (omega (arith, length-append finished (r ∷ [])))
rest_of_round answer m r (q ∷ todo) finished log p ok =
    let count : suc (length finished) ≡ length (finished ++ (r ∷ [])) =
      omega (arith, length-append finished (r ∷ [])) in
    rw
      (
        patch_step (suc (length todo)) r (length finished) answer m ((q ∷ todo) ++ finished) log p
            ok.0
            (omega (
              arith,
              length-append ((q ∷ todo) ++ finished) (r ∷ []),
              length-append (q ∷ todo) finished,
            )),
        append_assoc (q ∷ todo) finished (r ∷ []),
        count,
        rest_of_round answer m q todo (finished ++ (r ∷ [])) (log ++ (patches r ∷ []))
            (omega (arith, length-append finished (r ∷ []))) ok.1,
        append_assoc finished (r ∷ []) (q ∷ todo),
        append_assoc log (patches r ∷ []) (map patches (q ∷ todo)),
      )
      refl

only_step :
    (r : ℕ) (answer : Sent → FileCache → Answer) (m m' : FileCache)
    → answer (hotfixes r) m ≡ accepts m'
    → hotfix_process 1 answer m (r ∷ []) 0 [] ≡ patched m' (r ∷ []) (hotfixes r ∷ [])
unfolding hotfix_process
only_step r answer m m' ok = ground (arith, ok)

-- If every runtime takes the script, one round of the pool ends the reload: the first runtime gets a
-- hotfix, each other one a patch, in the order of the pool, and the pool is as it was.
pub reload_completes :
    (answer : Sent → FileCache → Answer) (m m' : FileCache) (r : ℕ) (pool : List ℕ)
    → answer (hotfixes r) m ≡ accepts m'
    → All (λ x. answer (patches x) m' ≡ accepts m') pool
    → hotfix_process (length (r ∷ pool)) answer m (r ∷ pool) 0 []
      ≡ patched m' (r ∷ pool) (hotfixes r ∷ map patches pool)
reload_completes answer m m' r [] ok oks = only_step r answer m m' ok
reload_completes answer m m' r (q ∷ pool) ok oks =
    rw (first_step (suc (length pool)) r answer m m' (q ∷ pool) ok (omega arith))
      (rest_of_round answer m' q pool (r ∷ []) (hotfixes r ∷ []) (omega arith) oks)

failing_step :
    (fuel r completes : ℕ) (answer : Sent → FileCache → Answer) (m : FileCache) (pool : List ℕ)
    (log : List Sent) (x : Bytes)
    → 0 < completes
    → answer (patches r) m ≡ refuses x
    → hotfix_process (suc fuel) answer m (r ∷ pool) completes log
      ≡ discarded x (pool ++ (r ∷ [])) (log ++ (patches r ∷ []))
unfolding hotfix_process
failing_step fuel r completes answer m pool log x p bad = ground (arith, bad)

-- If the first runtime takes the hotfix, which leaves the file as m', some more take the patch with
-- this file, and the next one answers with an error: the reload is discarded with that error, and the
-- runtimes behind it get nothing.
pub reload_stops :
    (answer : Sent → FileCache → Answer) (m m' : FileCache) (r bad : ℕ) (pre post : List ℕ)
    (x : Bytes) (fuel : ℕ)
    → answer (hotfixes r) m ≡ accepts m'
    → All (λ q. answer (patches q) m' ≡ accepts m') pre
    → answer (patches bad) m' ≡ refuses x
    → hotfix_process (suc (length pre + suc fuel)) answer m (r ∷ (pre ++ (bad ∷ post))) 0 []
      ≡ discarded x
          (post ++ (r ∷ (pre ++ (bad ∷ []))))
          (hotfixes r ∷ (map patches pre ++ (patches bad ∷ [])))
reload_stops answer m m' r bad pre post x fuel ok oks no_good =
    rw
      (
        first_step (length pre + suc fuel) r answer m m' (pre ++ (bad ∷ post)) ok
            (omega (arith, length-append pre (bad ∷ post))),
        append_assoc pre (bad ∷ post) (r ∷ []),
        advance answer m' pre ((bad ∷ post) ++ (r ∷ [])) (suc fuel) 1 (hotfixes r ∷ [])
            (omega arith)
            (omega (
              arith,
              length-append pre ((bad ∷ post) ++ (r ∷ [])),
              length-append (bad ∷ post) (r ∷ []),
            ))
            oks,
        failing_step fuel bad (1 + length pre) answer m' ((post ++ (r ∷ [])) ++ pre)
            ((hotfixes r ∷ []) ++ map patches pre) x (omega arith) no_good,
      )
      (simp append_assoc)
