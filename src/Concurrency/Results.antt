-- ===== src/Concurrency/Results.antt =====
-- Engine/Concurrency.cpp: what runParallel returns, whatever the order in which the pool runs the tasks.
use mini_database.Prelude.{
  ℕ, zero, suc, ◌≡◌, refl, ap, ap₂, sym, ◌∙◌, subst, some, List, [], ◌∷◌, ◌++◌, map, arith,
  if◌then◌else◌, append_assoc, append-nil, length, length-append, get_elem?, take,
}
use mini_database.Common.{Status, ok}
use mini_database.Table.Contract.{is_ok}
use mini_database.Concurrency.{
  Task, waiting, finished, Caller, enqueuing, collecting, returned, System, keep_status, start,
  Step, enqueue, collect, run, get, return, Reach, here, next,
}

-- The last status that is not ok, if there is one.
unfoldable pub last_failure : List Status → Status
last_failure [] = ok
last_failure (s ∷ ss) = let rest = last_failure ss in if is_ok rest then s else rest

-- The loop over the futures.
unfoldable pub folded : Status → List Status → Status
unfolding keep_status
folded final [] = final
folded final (s ∷ ss) = folded (keep_status final s) ss

pub folded-last_failure :
    (final : Status) (ss : List Status)
    → folded final ss ≡ (if is_ok (last_failure ss) then final else last_failure ss)
unfolding folded last_failure keep_status
folded-last_failure final [] = refl
folded-last_failure final (s ∷ ss) = ground (arith, folded-last_failure (keep_status final s) ss)

module _ {A : Type 0} where
  abbrev pub table_of : Task A → A
  table_of (waiting a) = a
  table_of (finished a s) = a

module _ {A : Type 0} (fn : A → A × Status) where
  abbrev pub new_table : A → A
  new_table a = (fn a).0

  abbrev pub status_of : A → Status
  status_of a = (fn a).1

  -- A task is still to do its table's work, or has done it.
  abbrev pub Tracks : A → Task A → Type 0
  Tracks a (waiting b) = a ≡ b
  Tracks a (finished b s) = (b ≡ new_table a) × (s ≡ status_of a)

  abbrev pub Tracked : List A → List (Task A) → Type 0
  Tracked [] [] = Unit
  Tracked (a ∷ as') (t ∷ ts) = Tracks a t × Tracked as' ts
  Tracked _ _ = ⊥

  abbrev pub FirstFinished : ℕ → List (Task A) → Type 0
  FirstFinished zero ts = Unit
  FirstFinished (suc n) (finished a s ∷ ts) = FirstFinished n ts
  FirstFinished (suc n) _ = ⊥

  Tracked-run :
      (as' : List A) (before after : List (Task A)) (a : A)
      → Tracked as' (before ++ waiting a ∷ after)
      → Tracked as' (before ++ finished (fn a).0 (fn a).1 ∷ after)
  Tracked-run [] [] after a h = h
  Tracked-run [] (t ∷ before) after a h = h
  Tracked-run (b ∷ bs) [] after a (e, h) = ((ap new_table (sym e), ap status_of (sym e)), h)
  Tracked-run (b ∷ bs) (t ∷ before) after a (e, h) = (e, Tracked-run bs before after a h)

  FirstFinished-run :
      (n : ℕ) (before after : List (Task A)) (a : A)
      → FirstFinished n (before ++ waiting a ∷ after)
      → FirstFinished n (before ++ finished (fn a).0 (fn a).1 ∷ after)
  FirstFinished-run zero before after a h = tt
  FirstFinished-run (suc n) [] after a h = absurd h
  FirstFinished-run (suc n) (waiting b ∷ before) after a h = absurd h
  FirstFinished-run (suc n) (finished b s ∷ before) after a h = FirstFinished-run n before after a h

  Tracked-append :
      (as' : List A) (ts : List (Task A)) (a : A)
      → Tracked as' ts
      → Tracked (as' ++ a ∷ []) (ts ++ waiting a ∷ [])
  Tracked-append [] [] a h = (refl, tt)
  Tracked-append [] (t ∷ ts) a h = absurd h
  Tracked-append (b ∷ bs) [] a h = absurd h
  Tracked-append (b ∷ bs) (t ∷ ts) a (e, h) = (e, Tracked-append bs ts a h)

  -- What one more future adds.
  collected :
      (as' : List A) (ts : List (Task A)) (n : ℕ) (a : A) (s final : Status)
      → Tracked as' ts
      → FirstFinished n ts
      → get_elem? ts n ≡ some (finished a s)
      → FirstFinished (suc n) ts
        × (folded final (take (suc n) (map status_of as'))
            ≡ keep_status (folded final (take n (map status_of as'))) s)
  unfolding folded
  collected as' [] n a s final h k e = absurd (ground (arith, e))
  collected [] (t ∷ ts) n a s final h k e = absurd h
  collected (c ∷ cs) (waiting b ∷ ts) zero a s final h k e = absurd (ground (arith, e))
  collected (c ∷ cs) (waiting b ∷ ts) (suc n) a s final h k e = absurd k
  collected (c ∷ cs) (finished b t ∷ ts) zero a s final ((_, same), h) k e =
      (tt, ap (keep_status final) (sym same ∙ ground (arith, e)))
  collected (c ∷ cs) (finished b t ∷ ts) (suc n) a s final (_, h) k e =
      collected cs ts n a s (keep_status final (status_of c)) h k e

  tables_lem :
      (as' : List A) (ts : List (Task A))
      → Tracked as' ts
      → FirstFinished (length ts) ts
      → (map table_of ts ≡ map new_table as')
        × (take (length ts) (map status_of as') ≡ map status_of as')
  tables_lem [] [] h k = (refl, refl)
  tables_lem [] (t ∷ ts) h k = absurd h
  tables_lem (a ∷ as') [] h k = absurd h
  tables_lem (a ∷ as') (waiting b ∷ ts) h k = absurd k
  tables_lem (a ∷ as') (finished b s ∷ ts) ((e, _), h) k =
      let (l, r) = tables_lem as' ts h k in
      (ap₂ (λ x xs. x ∷ xs) e l, ap (λ xs. status_of a ∷ xs) r)

  -- What holds of the caller and the tasks after any steps.
  abbrev pub InvAt : List A → Caller A → List (Task A) → Type 0
  InvAt tables (enqueuing rest) ts =
      (before : List A) × (tables ≡ before ++ rest) × Tracked before ts
  InvAt tables (collecting n final) ts =
      Tracked tables ts × FirstFinished n ts × (final ≡ folded ok (take n (map status_of tables)))
  InvAt tables (returned final) ts =
      Tracked tables ts × FirstFinished (length ts) ts × (final ≡ folded ok (map status_of tables))

  abbrev pub Inv : List A → System A → Type 0
  Inv tables s = InvAt tables s.caller s.tasks

  run-InvAt :
      (tables : List A) (c : Caller A) (before after : List (Task A)) (a : A)
      → InvAt tables c (before ++ waiting a ∷ after)
      → InvAt tables c (before ++ finished (fn a).0 (fn a).1 ∷ after)
  run-InvAt tables (enqueuing rest) before after a (front, e, h) =
      (front, e, Tracked-run front before after a h)
  run-InvAt tables (collecting n final) before after a (h, k, e) =
      (Tracked-run tables before after a h, FirstFinished-run n before after a k, e)
  run-InvAt tables (returned final) before after a (h, k, e) =
      let same : length (before ++ waiting a ∷ after)
          ≡ length (before ++ finished (fn a).0 (fn a).1 ∷ after) =
        omega (
          arith,
          length-append before (waiting a ∷ after),
          length-append before (finished (fn a).0 (fn a).1 ∷ after),
        ) in
      (
        Tracked-run tables before after a h,
        subst (λ n. FirstFinished n (before ++ finished (fn a).0 (fn a).1 ∷ after)) same
            (FirstFinished-run (length (before ++ waiting a ∷ after)) before after a k),
        e,
      )

  Step-Inv : (tables : List A) (s t : System A) → Step fn s t → Inv tables s → Inv tables t
  unfolding folded
  Step-Inv tables s t (enqueue a rest at same) inv =
      let (before, e, h) = subst (λ c. InvAt tables c s.tasks) at inv in
      rw same (
        before ++ a ∷ [],
        e ∙ sym (append_assoc before (a ∷ []) rest),
        Tracked-append before s.tasks a h,
      )
  Step-Inv tables s t (collect at same) inv =
      let (before, e, h) = subst (λ c. InvAt tables c s.tasks) at inv in
      rw same (subst (λ l. Tracked l s.tasks) (sym (append-nil before) ∙ sym e) h, tt, refl)
  Step-Inv tables s t (run before after a held same) inv =
      rw same
        (run-InvAt tables s.caller before after a (subst (λ l. InvAt tables s.caller l) held inv))
  Step-Inv tables s t (get n final a status at held same) inv =
      let (h, k, e) = subst (λ c. InvAt tables c s.tasks) at inv in
      let (k', e') = collected tables s.tasks n a status ok h k held in
      rw same (h, k', ap (λ f. keep_status f status) e ∙ sym e')
  Step-Inv tables s t (return n final at full same) inv =
      let (h, k, e) = subst (λ c. InvAt tables c s.tasks) at inv in
      let k' : FirstFinished (length s.tasks) s.tasks =
        subst (λ m. FirstFinished m s.tasks) full k in
      rw same (
        h,
        k',
        e
            ∙ ap (folded ok)
                (ap (λ m. take m (map status_of tables)) full ∙ (tables_lem tables s.tasks h k').1),
      )

  pub Reach-Inv : (tables : List A) (n : ℕ) (s : System A) → Reach fn tables n s → Inv tables s
  unfolding start
  Reach-Inv tables zero s here = ([], refl, tt)
  Reach-Inv tables (suc n) t (next {s} r step) = Step-Inv tables s t step (Reach-Inv tables n s r)

  -- Whatever the order in which the pool runs the tasks: when runParallel has returned, every table is
  -- what its task makes of it, and the status is the last one that is not ok in the order of the tables,
  -- or ok if there is none.
  pub run_parallel-result :
      (tables : List A) (n : ℕ) (s : System A) (final : Status)
      → Reach fn tables n s
      → s.caller ≡ returned final
      → (map table_of s.tasks ≡ map new_table tables)
        × (final ≡ last_failure (map status_of tables))
  run_parallel-result tables n s final r at =
      let (h, k, e) = subst (λ c. InvAt tables c s.tasks) at (Reach-Inv tables n s r) in
      (
        (tables_lem tables s.tasks h k).0,
        e ∙ folded-last_failure ok (map status_of tables) ∙ ground arith,
      )
