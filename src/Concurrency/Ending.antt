-- ===== src/Concurrency/Ending.antt =====
-- Engine/Concurrency.cpp, sections 3 and 5: the parallel calls that write files come to an end.
use mini_database.Prelude.{
  ℕ, zero, suc, ◌+◌, ◌-◌, ◌≤◌, ◌<◌, ◌≡◌, ◌⊎◌, inl, inr, refl, ap, subst, Bool-cases, Option-cases,
  none, some, List, [], ◌∷◌, ◌++◌, arith, String, Option, append_assoc, length, length-append,
  length-drop, get_elem?, get_elem?-lt,
}
use mini_database.Common.{Status}
use mini_database.Packages.Files.{Files}
use mini_database.FileIo.Steps.{
  Phase, opening, writing, abandoning, closing, renaming, removing, ended, sibling, advance,
}
use mini_database.FileIo.Interleaved.{Held}
use mini_database.Concurrency.Saves.{
  Job, IsPending, SaveCaller, enqueuing, collecting, returned, threw, Saving, next_call,
  start_saving, SaveStep, enqueue, collect, call, get, rethrow, return, SaveReach, here, next,
}
use mini_database.Concurrency.Saving.{AllApart, Tracked, Tracked-Held}
use mini_database.Concurrency.Saved.{Collected, AllOpening, Inv, InvAt, SaveReach-Inv}

-- The calls that a task has still to make, at most.
abbrev pub calls_left : List ℕ → Phase → ℕ
calls_left content opening = length content + 5
calls_left content (writing fd rest) = length rest + 4
calls_left content (abandoning fd) = 1
calls_left content (closing fd) = 3
calls_left content renaming = 2
calls_left content removing = 1
calls_left content (ended status) = 0

-- Over tasks, with so many steps of the caller for each.
abbrev pub work_left : ℕ → List Job → ℕ
work_left each [] = 0
work_left each (j ∷ js) = calls_left j.content j.phase + each + work_left each js

abbrev pub remaining_at : SaveCaller → List Job → ℕ
remaining_at (enqueuing rest) ts = work_left 2 rest + work_left 1 ts + 2
remaining_at (collecting n final) ts = work_left 0 ts + (length ts - n) + 1
remaining_at (returned final) ts = work_left 0 ts
remaining_at threw ts = work_left 0 ts

work_left-append :
    (each : ℕ) (ts us : List Job)
    → work_left each (ts ++ us) ≡ work_left each ts + work_left each us
work_left-append each [] us = omega arith
work_left-append each (t ∷ ts) us = omega (arith, work_left-append each ts us)

work_left_each :
    (each : ℕ) (ts : List Job) → work_left (suc each) ts ≡ work_left each ts + length ts
work_left_each each [] = omega arith
work_left_each each (t ∷ ts) = omega (arith, work_left_each each ts)

-- A task has a call to make or has ended.
stands : (phase : Phase) → IsPending phase ⊎ ((s : Option Status) × (phase ≡ ended s))
stands opening = inl tt
stands (writing fd rest) = inl tt
stands (abandoning fd) = inl tt
stands (closing fd) = inl tt
stands renaming = inl tt
stands removing = inl tt
stands (ended s) = inr (s, refl)

module _ (F : Files) where
  open F use {World, content, open_trunc, write, fsync, close, rename, write-some}

  abbrev pub remaining : Saving F → ℕ
  remaining s = remaining_at s.caller s.jobs

  -- A call brings its task nearer to its end.
  advance-calls_left :
      (path : String) (bytes : List ℕ) (old : Option (List ℕ)) (phase : Phase) (w : World)
      → IsPending phase
      → Held F path bytes old phase w
      → calls_left bytes (advance F path bytes phase w).0 < calls_left bytes phase
  unfolding advance
  advance-calls_left path bytes old opening w p h =
      elim (Option-cases (open_trunc (sibling path) w).0) [
        | inl e ↦ rw (e, advance) (omega arith)
        | inr (fd, e) ↦ rw (e, advance) (omega arith)
      ]
  advance-calls_left path bytes old (writing fd []) w p h = elim (Bool-cases (fsync fd w).0) [
    | inl y ↦ rw (y, advance) (omega arith)
    | inr n ↦ rw (n, advance) (omega arith)
  ]
  advance-calls_left path bytes old (writing fd (b ∷ bs)) w p (h, o, (before, e, whole)) =
      elim (Option-cases (write fd (b ∷ bs) w).0) [
        | inl n ↦ rw (n, advance) (omega arith)
        | inr (k, n) ↦
            let (some_byte, within, _, _) =
              write-some fd (sibling path) (b ∷ bs) before w k o e (omega arith) n in
            rw (n, advance) (omega (arith, length-drop k (b ∷ bs)))
      ]
  advance-calls_left path bytes old (abandoning fd) w p h = omega arith
  advance-calls_left path bytes old (closing fd) w p h = omega arith
  advance-calls_left path bytes old renaming w p h =
      elim (Bool-cases (rename (sibling path) path w).0) [
        | inl y ↦ rw (y, advance) (omega arith)
        | inr n ↦ rw (n, advance) (omega arith)
      ]
  advance-calls_left path bytes old removing w p h = omega arith
  advance-calls_left path bytes old (ended status) w p h = absurd p

  call-remaining :
      (c : SaveCaller) (before after : List Job) (t t' : Job)
      → calls_left t'.content t'.phase < calls_left t.content t.phase
      → suc (remaining_at c (before ++ t' ∷ after)) ≤ remaining_at c (before ++ t ∷ after)
  call-remaining (enqueuing rest) before after t t' less =
      omega
        (arith, less, work_left-append 1 before (t ∷ after), work_left-append 1 before (t' ∷ after))
  call-remaining (collecting n final) before after t t' less = omega (
    arith,
    less,
    work_left-append 0 before (t ∷ after),
    work_left-append 0 before (t' ∷ after),
    length-append before (t ∷ after),
    length-append before (t' ∷ after),
  )
  call-remaining (returned final) before after t t' less =
      omega
        (arith, less, work_left-append 0 before (t ∷ after), work_left-append 0 before (t' ∷ after))
  call-remaining threw before after t t' less =
      omega
        (arith, less, work_left-append 0 before (t ∷ after), work_left-append 0 before (t' ∷ after))

  module _ (start : World) (js : List Job) where
    -- A pending task among the caller's holds what its phase says.
    picked-Held :
        (c : SaveCaller) (before after : List Job) (t : Job) (w : World)
        → InvAt F start js c (before ++ t ∷ after) w
        → Held F t.path t.content (content start t.path) t.phase w
    picked-Held (enqueuing rest) before after t w h =
        Tracked-Held F start w js before (after ++ rest) t
          (subst (Tracked F start w js) (append_assoc before (t ∷ after) rest) h)
    picked-Held (collecting n final) before after t w (h, _) =
        Tracked-Held F start w js before after t h
    picked-Held (returned final) before after t w (h, _) =
        Tracked-Held F start w js before after t h
    picked-Held threw before after t w (h, _) = Tracked-Held F start w js before after t h

    SaveStep-remaining :
        (s t : Saving F) → SaveStep F s t → Inv F start js s → suc (remaining t) ≤ remaining s
    unfolding next_call
    SaveStep-remaining s t (enqueue j rest at same) inv =
        rw (at, same) (omega (arith, work_left-append 1 s.jobs (j ∷ [])))
    SaveStep-remaining s t (collect at same) inv =
        rw (at, same) (omega (arith, work_left_each 0 s.jobs))
    SaveStep-remaining s t (call before after j p held same) inv =
        let h =
          picked-Held s.caller before after j s.world
            (subst (λ l. InvAt F start js s.caller l s.world) held inv) in
        rw (same, held)
          (call-remaining s.caller before after j (next_call F j s.world).0
            (advance-calls_left j.path j.content (content start j.path) j.phase s.world p h))
    SaveStep-remaining s t (get n final j status at held ended_at same) inv =
        rw (at, same) (omega (arith, get_elem?-lt s.jobs n j held))
    SaveStep-remaining s t (rethrow n final j at held ended_at same) inv =
        rw (at, same) (omega arith)
    SaveStep-remaining s t (return n final at full same) inv = rw (at, same) (omega (arith, full))

    SaveReach-remaining :
        (n : ℕ) (s : Saving F)
        → AllApart F js
        → AllOpening js
        → SaveReach F (start_saving F js start) n s
        → n + remaining s ≤ work_left 2 js + 2
    unfolding start_saving
    SaveReach-remaining zero s a o here = omega arith
    SaveReach-remaining (suc n) t a o (next {s} r step) = omega (
      arith,
      SaveStep-remaining s t step (SaveReach-Inv F start js n s a o r),
      SaveReach-remaining n s a o r,
    )

  -- Whose turn it is when so many futures have been collected.
  turn :
      (n : ℕ) (ts : List Job) (ss : List Status)
      → Collected n ts ss
      → (n ≡ length ts)
        ⊎ (((t : Job) × (s : Option Status) × (get_elem? ts n ≡ some t) × (t.phase ≡ ended s))
            ⊎ ((before : List Job) × (after : List Job) × (t : Job) × (ts ≡ before ++ t ∷ after)
                × IsPending t.phase))
  turn zero [] ss h = inl refl
  turn zero (t ∷ ts) ss h = elim (stands t.phase) [
    | inl p ↦ inr (inr ([], ts, t, refl, p))
    | inr (s, e) ↦ inr (inl (t, s, refl, e))
  ]
  turn (suc n) [] ss h = absurd h
  turn (suc n) (t ∷ ts) [] h = absurd h
  turn (suc n) (t ∷ ts) (s ∷ ss) (e, h) = elim (turn n ts ss h) [
    | inl full ↦ inl (ap suc full)
    | inr (inl (u, r, at, k)) ↦ inr (inl (u, r, at, k))
    | inr (inr (before, after, u, at, p)) ↦ inr (inr (t ∷ before, after, u, ap (◌∷◌ t) at, p))
  ]

  -- The caller has returned or thrown, or something can happen.
  abbrev pub IsLive : Saving F → Type 0
  IsLive s =
      (((final : Status) × (s.caller ≡ returned final)) ⊎ (s.caller ≡ threw))
      ⊎ ((t : Saving F) × SaveStep F s t)

  InvAt-IsLive :
      (start : World) (js : List Job) (c : SaveCaller) (ts : List Job) (w : World)
      → InvAt F start js c ts w
      → IsLive (record { caller = c; jobs = ts; world = w })
  InvAt-IsLive start js (enqueuing []) ts w inv = inr (_, collect refl refl)
  InvAt-IsLive start js (enqueuing (j ∷ rest)) ts w inv = inr (_, enqueue j rest refl refl)
  InvAt-IsLive start js (returned final) ts w inv = inl (inl (final, refl))
  InvAt-IsLive start js threw ts w inv = inl (inr refl)
  InvAt-IsLive start js (collecting n final) ts w (h, (ss, k, e)) = elim (turn n ts ss k) [
    | inl full ↦ inr (_, return n final refl full refl)
    | inr (inl (t, some s, at, ended_at)) ↦ inr (_, get n final t s refl at ended_at refl)
    | inr (inl (t, none, at, ended_at)) ↦ inr (_, rethrow n final t refl at ended_at refl)
    | inr (inr (before, after, t, at, p)) ↦ inr (_, call before after t p at refl)
  ]

  -- The caller and the tasks come to an end.
  pub saves-progress :
      (start : World) (js : List Job) (n : ℕ) (s : Saving F)
      → AllApart F js
      → AllOpening js
      → SaveReach F (start_saving F js start) n s
      → IsLive s × (n + remaining s ≤ work_left 2 js + 2)
  saves-progress start js n s a o r = (
    InvAt-IsLive start js s.caller s.jobs s.world (SaveReach-Inv F start js n s a o r),
    SaveReach-remaining start js n s a o r,
  )
