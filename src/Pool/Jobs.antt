-- ===== src/Pool/Jobs.antt =====
-- No job is lost, doubled or reordered on its way through the queue.
use mathlib.Core.List.{append_assoc, append-nil, Perm, perm_middle, perm-append_left_iff}
use mathlib.Core.List.Perm
use game_production.Common.{
  ◌≤◌, ◌≡◌, refl, sym, ap, ◌∙◌, ◌⊎◌, Bool-cases, inl, inr, List, [], ◌∷◌, ◌++◌, false, arith, ltb,
  length, length-append,
}
use game_production.Pool.Defs.{Pool, submit, submit_all, worker_take}

-- What the goroutines do to the pool, in any order.
pub data Op (J : Type 0) : Type 0 where
  submits : J → Op J
  takes : Op J

module _ {J : Type 0} where
  pub apply : Op J → Pool J → Pool J
  apply (submits j) p = submit j p
  apply takes p = worker_take p

  pub run : List (Op J) → Pool J → Pool J
  run [] p = p
  run (o ∷ os) p = run os (apply o p)

  abbrev pub submitted : List (Op J) → List J
  submitted [] = []
  submitted (submits j ∷ os) = j ∷ submitted os
  submitted (takes ∷ os) = submitted os

  -- Every job of the pool, wherever it is.
  abbrev pub all_jobs : Pool J → List J
  all_jobs p = p.taken ++ (p.queue ++ p.spawned)

  queued_perm : (t q s : List J) (j : J) → Perm (t ++ ((q ++ j ∷ []) ++ s)) (j ∷ (t ++ (q ++ s)))
  queued_perm t q s j =
      rw (append_assoc q (j ∷ []) s)
        (Perm.trans ((perm-append_left_iff t).1 (perm_middle q s)) (perm_middle t (q ++ s)))

  last_perm : (s : List J) (j : J) → Perm (s ++ j ∷ []) (j ∷ s)
  last_perm s j = rw (append-nil s) at (perm_middle {a = j} s [])

  spawned_perm : (t q s : List J) (j : J) → Perm (t ++ (q ++ (s ++ j ∷ []))) (j ∷ (t ++ (q ++ s)))
  spawned_perm t q s j =
      rw (← append_assoc q s (j ∷ []))
        (Perm.trans ((perm-append_left_iff t).1 (last_perm (q ++ s) j)) (perm_middle t (q ++ s)))

  submit-all_jobs : (j : J) (p : Pool J) → Perm (all_jobs (submit j p)) (j ∷ all_jobs p)
  unfolding submit
  submit-all_jobs j p = elim (Bool-cases (ltb (length p.queue) p.capacity)) [
    | inl room ↦ rw room (queued_perm p.taken p.queue p.spawned j)
    | inr full ↦ rw full (spawned_perm p.taken p.queue p.spawned j)
  ]

  take-all_jobs : (q : List J) (p : Pool J) → p.queue ≡ q → all_jobs (worker_take p) ≡ all_jobs p
  unfolding worker_take
  take-all_jobs [] p e = rw (e, worker_take)
  take-all_jobs (j ∷ js) p e = rw (e, worker_take) (append_assoc p.taken (j ∷ []) (js ++ p.spawned))

  apply-all_jobs :
      (o : Op J) (os : List (Op J)) (p : Pool J)
      → Perm (submitted os ++ all_jobs (apply o p)) (submitted (o ∷ os) ++ all_jobs p)
  unfolding apply
  apply-all_jobs (submits j) os p =
      Perm.trans ((perm-append_left_iff (submitted os)).1 (submit-all_jobs j p))
        (perm_middle (submitted os) (all_jobs p))
  apply-all_jobs takes os p = rw (take-all_jobs p.queue p refl) (Perm.refl _)

  -- Whatever the order in which jobs are submitted and workers take them, the jobs that workers have,
  -- that wait in the queue and that got a goroutine are those of the beginning and the submitted ones,
  -- each as often as it was submitted.
  pub run-all_jobs :
      (os : List (Op J)) (p : Pool J) → Perm (all_jobs (run os p)) (submitted os ++ all_jobs p)
  unfolding run
  run-all_jobs [] p = Perm.refl _
  run-all_jobs (o ∷ os) p = Perm.trans (run-all_jobs os (apply o p)) (apply-all_jobs o os p)

  abbrev pub Fits : Pool J → Type 0
  Fits p = length p.queue ≤ p.capacity

  apply-Fits : (o : Op J) (p : Pool J) → Fits p → Fits (apply o p)
  unfolding apply submit worker_take
  apply-Fits (submits j) p h = ground (arith, length-append p.queue (j ∷ []))
  apply-Fits takes p h = ground arith

  -- Whatever jobs are submitted and taken, a queue that begins within its capacity stays within it.
  pub run-Fits : (os : List (Op J)) (p : Pool J) → Fits p → Fits (run os p)
  unfolding run
  run-Fits [] p h = h
  run-Fits (o ∷ os) p h = run-Fits os (apply o p) (apply-Fits o p h)

  submit-full :
      (j : J) (p : Pool J)
      → ltb (length p.queue) p.capacity ≡ false
      → submit j p ≡ record p { spawned = p.spawned ++ j ∷ [] }
  unfolding submit
  submit-full j p full = rw full

  submit_all-full :
      (js : List J) (p : Pool J)
      → ltb (length p.queue) p.capacity ≡ false
      → submit_all js p ≡ record p { spawned = p.spawned ++ js }
  unfolding submit_all
  submit_all-full [] p full = rw (append-nil p.spawned)
  submit_all-full (j ∷ js) p full = rw (submit-full j p full) (
      submit_all-full js (record p { spawned = p.spawned ++ j ∷ [] }) full
      ∙ ap (λ (l : List J). record p { spawned = l }) (append_assoc p.spawned (j ∷ []) js))

  -- What became of the jobs `js` in a pool `q` that comes from `p`.
  pub record Split (js : List J) (p q : Pool J) : Type 0 where
    pub queued : List J
    pub rest : List J
    pub parts : js ≡ queued ++ rest
    pub in_queue : q.queue ≡ p.queue ++ queued
    pub in_goroutines : q.spawned ≡ p.spawned ++ rest
    pub only_if_full : (rest ≡ []) ⊎ (length q.queue ≡ p.capacity)
    pub same_taken : q.taken ≡ p.taken

  Split-queued :
      (j : J) (js : List J) (p q : Pool J)
      → Split js (record p { queue = p.queue ++ j ∷ [] }) q
      → Split (j ∷ js) p q
  Split-queued j js p q s = record {
    queued = j ∷ s.queued;
    rest = s.rest;
    parts = ap (λ (l : List J). j ∷ l) s.parts;
    in_queue = s.in_queue ∙ append_assoc p.queue (j ∷ []) s.queued;
    in_goroutines = s.in_goroutines;
    only_if_full = s.only_if_full;
    same_taken = s.same_taken;
  }

  Split-full :
      (js : List J) (p : Pool J)
      → length p.queue ≡ p.capacity
      → Split js p (record p { spawned = p.spawned ++ js })
  Split-full js p e = record {
    queued = [];
    rest = js;
    parts = refl;
    in_queue = sym (append-nil p.queue);
    in_goroutines = refl;
    only_if_full = inr e;
    same_taken = refl;
  }

  -- Of jobs submitted in a row the first go behind the jobs that wait, in their order; the rest, if
  -- any, get goroutines, in their order, and then the queue is full.
  pub submit_all-Split : (js : List J) (p : Pool J) → Fits p → Split js p (submit_all js p)
  unfolding submit_all submit
  submit_all-Split [] p h = record {
    queued = [];
    rest = [];
    parts = refl;
    in_queue = sym (append-nil p.queue);
    in_goroutines = sym (append-nil p.spawned);
    only_if_full = inl refl;
    same_taken = refl;
  }
  submit_all-Split (j ∷ js) p h = elim (Bool-cases (ltb (length p.queue) p.capacity)) [
    | inl room ↦ rw room (
        Split-queued j js p _ (
          submit_all-Split js (record p { queue = p.queue ++ j ∷ [] })
            (ground (arith, length-append p.queue (j ∷ [])))))
    | inr full ↦ rw full (
        rw
          (
            submit_all-full js (record p { spawned = p.spawned ++ j ∷ [] }) full,
            append_assoc p.spawned (j ∷ []) js,
          )
          (Split-full (j ∷ js) p (ground arith)))
  ]

  -- Jobs submitted in a row are added to the pool's jobs.
  pub submit_all-all_jobs :
      (js : List J) (p : Pool J) → Perm (all_jobs (submit_all js p)) (js ++ all_jobs p)
  unfolding submit_all
  submit_all-all_jobs [] p = Perm.refl _
  submit_all-all_jobs (j ∷ js) p =
      Perm.trans (submit_all-all_jobs js (submit j p)) (
        Perm.trans ((perm-append_left_iff js).1 (submit-all_jobs j p))
          (perm_middle js (all_jobs p)))
