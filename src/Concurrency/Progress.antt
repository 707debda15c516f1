-- ===== src/Concurrency/Progress.antt =====
-- Engine/Concurrency.cpp: runParallel neither blocks for ever nor runs for ever.
use mini_database.Prelude.{
  ℕ, zero, suc, ◌+◌, ◌*◌, ◌-◌, ◌≡◌, ◌⊎◌, inl, inr, refl, ap, some, List, [], ◌∷◌, ◌++◌, arith,
  length, length-append, get_elem?, get_elem?-lt,
}
use mini_database.Common.{Status}
use mini_database.Concurrency.{
  Task, waiting, finished, Caller, enqueuing, collecting, returned, System, start, Step, enqueue,
  collect, run, get, return, Reach, here, next,
}
use mini_database.Concurrency.Results.{FirstFinished, InvAt, Reach-Inv}

module _ {A : Type 0} where
  -- The tasks that have not run.
  unfoldable pub waiting_count : List (Task A) → ℕ
  waiting_count [] = 0
  waiting_count (waiting a ∷ ts) = suc (waiting_count ts)
  waiting_count (finished a s ∷ ts) = waiting_count ts

  -- The steps that are left: every table's task is enqueued, run and collected, and the caller goes from
  -- one loop to the other and returns.
  abbrev pub remaining_at : Caller A → List (Task A) → ℕ
  remaining_at (enqueuing rest) ts = 3 * length rest + length ts + waiting_count ts + 2
  remaining_at (collecting n final) ts = (length ts - n) + waiting_count ts + 1
  remaining_at (returned final) ts = waiting_count ts

  abbrev pub remaining : System A → ℕ
  remaining s = remaining_at s.caller s.tasks

  waiting_count-append :
      (ts us : List (Task A)) → waiting_count (ts ++ us) ≡ waiting_count ts + waiting_count us
  unfolding waiting_count
  waiting_count-append [] us = omega arith
  waiting_count-append (waiting a ∷ ts) us = omega (arith, waiting_count-append ts us)
  waiting_count-append (finished a s ∷ ts) us = waiting_count-append ts us

  run-remaining :
      (c : Caller A) (before after : List (Task A)) (a b : A) (s : Status)
      → remaining_at c (before ++ waiting a ∷ after)
        ≡ suc (remaining_at c (before ++ finished b s ∷ after))
  unfolding waiting_count
  run-remaining c before after a b s =
      let lengths : length (before ++ waiting a ∷ after) ≡ length (before ++ finished b s ∷ after) =
        omega (
          arith,
          length-append before (waiting a ∷ after),
          length-append before (finished b s ∷ after),
        ) in
      elim c
        as (λ c.
          remaining_at c (before ++ waiting a ∷ after)
          ≡ suc (remaining_at c (before ++ finished b s ∷ after))) [
            | enqueuing rest ↦ omega (
              arith,
              lengths,
              waiting_count-append before (waiting a ∷ after),
              waiting_count-append before (finished b s ∷ after),
            )
            | collecting n final ↦ omega (
              arith,
              lengths,
              waiting_count-append before (waiting a ∷ after),
              waiting_count-append before (finished b s ∷ after),
            )
            | returned final ↦ omega (
              arith,
              waiting_count-append before (waiting a ∷ after),
              waiting_count-append before (finished b s ∷ after),
            )
          ]

  module _ (fn : A → A × Status) where
    Step-remaining : (s t : System A) → Step fn s t → remaining s ≡ suc (remaining t)
    unfolding waiting_count
    Step-remaining s t (enqueue a rest at same) =
        rw (at, same)
          (omega (
            arith,
            length-append s.tasks (waiting a ∷ []),
            waiting_count-append s.tasks (waiting a ∷ []),
          ))
    Step-remaining s t (collect at same) = rw (at, same) (omega arith)
    Step-remaining s t (run before after a held same) =
        rw (same, held) (run-remaining s.caller before after a (fn a).0 (fn a).1)
    Step-remaining s t (get n final a status at held same) =
        rw (at, same) (omega (arith, get_elem?-lt s.tasks n (finished a status) held))
    Step-remaining s t (return n final at full same) = rw (at, same) (omega (arith, full))

    Reach-remaining :
        (tables : List A) (n : ℕ) (s : System A)
        → Reach fn tables n s
        → n + remaining s ≡ 3 * length tables + 2
    unfolding start waiting_count
    Reach-remaining tables zero s here = omega arith
    Reach-remaining tables (suc n) t (next {s} r step) =
        omega (arith, Step-remaining s t step, Reach-remaining tables n s r)

    -- Whose turn it is when so many futures have been collected.
    turn :
        (n : ℕ) (ts : List (Task A))
        → FirstFinished fn n ts
        → (n ≡ length ts)
          ⊎ (((a : A) × (s : Status) × (get_elem? ts n ≡ some (finished a s)))
              ⊎ ((before : List (Task A)) × (after : List (Task A)) × (a : A) × (ts
                    ≡ before ++ waiting a ∷ after)))
    turn zero [] h = inl refl
    turn zero (waiting a ∷ ts) h = inr (inr ([], ts, a, refl))
    turn zero (finished a s ∷ ts) h = inr (inl (a, s, refl))
    turn (suc n) [] h = absurd h
    turn (suc n) (waiting a ∷ ts) h = absurd h
    turn (suc n) (finished a s ∷ ts) h = elim (turn n ts h) [
      | inl full ↦ inl (ap suc full)
      | inr (inl (b, t, e)) ↦ inr (inl (b, t, e))
      | inr (inr (before, after, b, e)) ↦
          inr (inr (finished a s ∷ before, after, b, ap (λ l. finished a s ∷ l) e))
    ]

    -- The caller has returned or something can happen.
    abbrev pub IsLive : System A → Type 0
    IsLive s = ((final : Status) × (s.caller ≡ returned final)) ⊎ ((t : System A) × Step fn s t)

    InvAt-IsLive :
        (tables : List A) (c : Caller A) (ts : List (Task A))
        → InvAt fn tables c ts
        → IsLive (record { caller = c; tasks = ts })
    InvAt-IsLive tables (enqueuing []) ts inv = inr (_, collect refl refl)
    InvAt-IsLive tables (enqueuing (a ∷ rest)) ts inv = inr (_, enqueue a rest refl refl)
    InvAt-IsLive tables (returned final) ts inv = inl (final, refl)
    InvAt-IsLive tables (collecting n final) ts (h, k, e) = elim (turn n ts k) [
      | inl full ↦ inr (_, return n final refl full refl)
      | inr (inl (a, status, held)) ↦ inr (_, get n final a status refl held refl)
      | inr (inr (before, after, a, held)) ↦ inr (_, run before after a held refl)
    ]

    -- runParallel ends, whatever the order in which the pool runs the tasks: it has returned or there is a
    -- next step, and no more than three steps per table and two are taken.
    run_parallel-progress :
        (tables : List A) (n : ℕ) (s : System A)
        → Reach fn tables n s
        → IsLive s × (n + remaining s ≡ 3 * length tables + 2)
    run_parallel-progress tables n s r = (
      InvAt-IsLive tables s.caller s.tasks (Reach-Inv fn tables n s r),
      Reach-remaining tables n s r,
    )
