-- ===== src/Concurrency/Saved.antt =====
-- Engine/Concurrency.cpp, sections 3 and 5: what the parallel calls that write files return.
use mini_database.Prelude.{
  ℕ, zero, suc, ◌≡◌, ◌⊎◌, inl, inr, refl, ap, sym, ◌∙◌, subst, none, some, List, [], ◌∷◌, ◌++◌,
  arith, append_assoc, append-nil, length, length-append, get_elem?, map,
}
use mini_database.Common.{Status, ok, io_error}
use mini_database.Packages.Files.{Files}
use mini_database.FileIo.Steps.{opening, ended}
use mini_database.FileIo.Interleaved.{Held}
use mini_database.Concurrency.{keep_status}
use mini_database.Concurrency.Results.{folded, last_failure, folded-last_failure}
use mini_database.Concurrency.Saves.{
  Job, IsPending, SaveCaller, enqueuing, collecting, returned, threw, Saving, next_call,
  start_saving, SaveStep, enqueue, collect, call, get, rethrow, return, SaveReach, here, next,
}
use mini_database.Concurrency.Saving.{AllApart, Tracked, Tracked-call, Tracked-get}

-- The first so many tasks have ended, with these statuses.
abbrev pub Collected : ℕ → List Job → List Status → Type 0
Collected zero ts [] = Unit
Collected (suc n) (t ∷ ts) (s ∷ ss) = (t.phase ≡ ended (some s)) × Collected n ts ss
Collected _ _ _ = ⊥

-- Every task has its call before it.
abbrev pub AllOpening : List Job → Type 0
AllOpening [] = Unit
AllOpening (j ∷ js) = (j.phase ≡ opening) × AllOpening js

pub AllOpening-map :
    {A : Type 0} (job : A → Job) (xs : List A)
    → ((x : A) → (job x).phase ≡ opening)
    → AllOpening (map job xs)
AllOpening-map job [] h = tt
AllOpening-map job (x ∷ xs) h = (h x, AllOpening-map job xs h)

Collected-call :
    (n : ℕ) (before after : List Job) (t t' : Job) (ss : List Status)
    → IsPending t.phase
    → Collected n (before ++ t ∷ after) ss
    → Collected n (before ++ t' ∷ after) ss
Collected-call zero before after t t' [] p h = tt
Collected-call zero before after t t' (s ∷ ss) p h = absurd h
Collected-call (suc n) [] after t t' [] p h = absurd h
Collected-call (suc n) [] after t t' (s ∷ ss) p (e, h) = absurd (subst IsPending e p)
Collected-call (suc n) (b ∷ before) after t t' [] p h = absurd h
Collected-call (suc n) (b ∷ before) after t t' (s ∷ ss) p (e, h) =
    (e, Collected-call n before after t t' ss p h)

Collected-get :
    (n : ℕ) (ts : List Job) (t : Job) (s : Status) (ss : List Status)
    → get_elem? ts n ≡ some t
    → t.phase ≡ ended (some s)
    → Collected n ts ss
    → Collected (suc n) ts (ss ++ s ∷ [])
Collected-get n [] t s ss e p h = absurd (ground (arith, e))
Collected-get zero (u ∷ ts) t s [] e p h =
    let same : u ≡ t = ground (arith, e) in (ap (λ (x : Job). x.phase) same ∙ p, tt)
Collected-get zero (u ∷ ts) t s (r ∷ ss) e p h = absurd h
Collected-get (suc n) (u ∷ ts) t s [] e p h = absurd h
Collected-get (suc n) (u ∷ ts) t s (r ∷ ss) e p (k, h) = (k, Collected-get n ts t s ss e p h)

folded-append :
    (final s : Status) (ss : List Status)
    → folded final (ss ++ s ∷ []) ≡ keep_status (folded final ss) s
unfolding folded
folded-append final s [] = refl
folded-append final s (r ∷ ss) = folded-append (keep_status final r) s ss

failed_status : (s : Status) → ((some s ≡ some io_error) ⊎ (some s ≡ none)) → s ≡ io_error
failed_status s (inl e) = ground (arith, e)
failed_status s (inr e) = cc

-- A task that has thrown, and its place.
abbrev pub Thrown : ℕ → List Job → Type 0
Thrown n ts = (t : Job) × (get_elem? ts n ≡ some t) × (t.phase ≡ ended none)

Thrown-call :
    (n : ℕ) (before after : List Job) (t t' : Job)
    → IsPending t.phase
    → Thrown n (before ++ t ∷ after)
    → Thrown n (before ++ t' ∷ after)
Thrown-call zero [] after t t' p (u, at, e) =
    let same : t ≡ u = ground (arith, at) in
    absurd (subst IsPending (ap (λ (x : Job). x.phase) same ∙ e) p)
Thrown-call (suc n) [] after t t' p (u, at, e) = (u, at, e)
Thrown-call zero (b ∷ before) after t t' p (u, at, e) = (u, at, e)
Thrown-call (suc n) (b ∷ before) after t t' p h = Thrown-call n before after t t' p h

module _ (F : Files) (start : Files.World F) where
  open F use {World, content}

  -- What a task leaves: its file is whole and its status ok, or its file is as it was at the start and
  -- its status IO_ERROR.
  abbrev pub Outcome : World → Job → Status → Type 0
  Outcome w j s =
      ((s ≡ ok) × (content w j.path ≡ some j.content))
      ⊎ ((s ≡ io_error) × (content w j.path ≡ content start j.path))

  abbrev pub Outcomes : World → List Job → List Status → Type 0
  Outcomes w [] [] = Unit
  Outcomes w (j ∷ js) (s ∷ ss) = Outcome w j s × Outcomes w js ss
  Outcomes w _ _ = ⊥

  Tracked-Outcomes :
      (w : World) (js ts : List Job) (ss : List Status)
      → Tracked F start w js ts
      → Collected (length ts) ts ss
      → Outcomes w js ss
  Tracked-Outcomes w [] [] [] h k = tt
  Tracked-Outcomes w [] [] (s ∷ ss) h k = absurd k
  Tracked-Outcomes w [] (t ∷ ts) ss h k = absurd h
  Tracked-Outcomes w (j ∷ js) [] ss h k = absurd h
  Tracked-Outcomes w (j ∷ js) (t ∷ ts) [] h k = absurd k
  Tracked-Outcomes w (j ∷ js) (t ∷ ts) (s ∷ ss) ((p, c, held), h) (e, k) =
      let at : Held F t.path t.content (content start t.path) (ended (some s)) w =
        subst (λ x. Held F t.path t.content (content start t.path) x w) e held in
      let outcome : Outcome w j s = elim at [
        | inl (good, whole) ↦
            inl (
              ground (arith, good),
              subst (λ x. content w x ≡ some j.content) p (whole ∙ ap some c),
            )
        | inr (bad, kept) ↦
            inr (failed_status s bad, subst (λ x. content w x ≡ content start x) p kept)
      ] in
      (outcome, Tracked-Outcomes w js ts ss h k)

  -- What holds after any steps.
  abbrev pub InvAt : List Job → SaveCaller → List Job → World → Type 0
  InvAt js (enqueuing rest) ts w = Tracked F start w js (ts ++ rest)
  InvAt js (collecting n final) ts w =
      Tracked F start w js ts × ((ss : List Status) × Collected n ts ss × (final ≡ folded ok ss))
  InvAt js (returned final) ts w =
      Tracked F start w js ts
      × ((ss : List Status) × Collected (length ts) ts ss × (final ≡ folded ok ss))
  InvAt js threw ts w = Tracked F start w js ts × ((n : ℕ) × Thrown n ts)

  call-InvAt :
      (js : List Job) (c : SaveCaller) (before after : List Job) (t : Job) (w : World)
      → AllApart F js
      → IsPending t.phase
      → InvAt js c (before ++ t ∷ after) w
      → InvAt js c (before ++ (next_call F t w).0 ∷ after) (next_call F t w).1
  call-InvAt js (enqueuing rest) before after t w a p h =
      subst (Tracked F start (next_call F t w).1 js)
        (sym (append_assoc before ((next_call F t w).0 ∷ after) rest))
        (Tracked-call F start w js before (after ++ rest) t a
          (subst (Tracked F start w js) (append_assoc before (t ∷ after) rest) h))
  call-InvAt js (collecting n final) before after t w a p (h, (ss, k, e)) = (
    Tracked-call F start w js before after t a h,
    (ss, Collected-call n before after t (next_call F t w).0 ss p k, e),
  )
  call-InvAt js (returned final) before after t w a p (h, (ss, k, e)) =
      let t' = (next_call F t w).0 in
      let same : length (before ++ t ∷ after) ≡ length (before ++ t' ∷ after) =
        omega (arith, length-append before (t ∷ after), length-append before (t' ∷ after)) in
      (
        Tracked-call F start w js before after t a h,
        (
          ss,
          subst (λ n. Collected n (before ++ t' ∷ after) ss) same
              (Collected-call (length (before ++ t ∷ after)) before after t t' ss p k),
          e,
        ),
      )
  call-InvAt js threw before after t w a p (h, (n, k)) =
      (Tracked-call F start w js before after t a h, (n, Thrown-call n before after t _ p k))

  abbrev pub Inv : List Job → Saving F → Type 0
  Inv js s = InvAt js s.caller s.jobs s.world

  SaveStep-Inv :
      (js : List Job) (s t : Saving F) → AllApart F js → SaveStep F s t → Inv js s → Inv js t
  unfolding folded
  SaveStep-Inv js s t a (enqueue j rest at same) inv =
      let h = subst (λ c. InvAt js c s.jobs s.world) at inv in
      rw same (subst (Tracked F start s.world js) (sym (append_assoc s.jobs (j ∷ []) rest)) h)
  SaveStep-Inv js s t a (collect at same) inv =
      let h = subst (λ c. InvAt js c s.jobs s.world) at inv in
      rw same (subst (Tracked F start s.world js) (append-nil s.jobs) h, ([], tt, refl))
  SaveStep-Inv js s t a (call before after j p held same) inv = rw same (
      call-InvAt js s.caller before after j s.world a p
        (subst (λ l. InvAt js s.caller l s.world) held inv))
  SaveStep-Inv js s t a (get n final j status at held ended_at same) inv =
      let (h, (ss, k, e)) = subst (λ c. InvAt js c s.jobs s.world) at inv in
      rw same (
        h,
        (
          ss ++ status ∷ [],
          Collected-get n s.jobs j status ss held ended_at k,
          ap (λ f. keep_status f status) e ∙ sym (folded-append ok status ss),
        ),
      )
  SaveStep-Inv js s t a (rethrow n final j at held ended_at same) inv =
      let (h, _) = subst (λ c. InvAt js c s.jobs s.world) at inv in
      rw same (h, (n, (j, held, ended_at)))
  SaveStep-Inv js s t a (return n final at full same) inv =
      let (h, (ss, k, e)) = subst (λ c. InvAt js c s.jobs s.world) at inv in
      rw same (h, (ss, subst (λ m. Collected m s.jobs ss) full k, e))

  start-Tracked : (js : List Job) → AllOpening js → Tracked F start start js js
  start-Tracked [] o = tt
  start-Tracked (j ∷ js) (o, os) = (
    (refl, refl, subst (λ x. Held F j.path j.content (content start j.path) x start) (sym o) refl),
    start-Tracked js os,
  )

  pub SaveReach-Inv :
      (js : List Job) (n : ℕ) (s : Saving F)
      → AllApart F js
      → AllOpening js
      → SaveReach F (start_saving F js start) n s
      → Inv js s
  unfolding start_saving
  SaveReach-Inv js zero s a o here = start-Tracked js o
  SaveReach-Inv js (suc n) t a o (next {s} r step) =
      SaveStep-Inv js s t a step (SaveReach-Inv js n s a o r)

  -- What the caller's end says. Returned: each task has ended with a status, which is of its outcome.
  -- Left by an exception: the task there has thrown, and its file is as it was at the start.
  abbrev pub Answered : List Job → List Job → World → SaveCaller → Type 0
  Answered js ts w (returned final) =
      (ss : List Status) × Collected (length ts) ts ss
      × Outcomes w js ss
      × (final ≡ last_failure ss)
  Answered js ts w threw =
      (n : ℕ) × (j : Job) × Thrown n ts
      × (get_elem? js n ≡ some j)
      × (content w j.path ≡ content start j.path)
  Answered js ts w _ = Unit

  InvAt-Answered :
      (js ts : List Job) (w : World) (c : SaveCaller) → InvAt js c ts w → Answered js ts w c
  InvAt-Answered js ts w (enqueuing rest) h = tt
  InvAt-Answered js ts w (collecting n final) h = tt
  InvAt-Answered js ts w (returned final) (h, (ss, k, e)) =
      (ss, k, Tracked-Outcomes w js ts ss h k, e ∙ folded-last_failure ok ss ∙ ground arith)
  InvAt-Answered js ts w threw (h, (n, (t, at, e))) =
      let (j, there, (p, c, held)) = Tracked-get F start w js ts n t h at in
      let left : Held F t.path t.content (content start t.path) (ended none) w =
        subst (λ x. Held F t.path t.content (content start t.path) x w) e held in
      let kept : content w t.path ≡ content start t.path = elim left [
        | inl (good, _) ↦ cc
        | inr (_, same) ↦ same
      ] in
      (n, j, (t, at, e), there, subst (λ x. content w x ≡ content start x) p kept)

  -- What the tasks have left when the caller has returned or thrown.
  pub saves-Answered :
      (js : List Job) (n : ℕ) (s : Saving F)
      → AllApart F js
      → AllOpening js
      → SaveReach F (start_saving F js start) n s
      → Answered js s.jobs s.world s.caller
  saves-Answered js n s a o r =
      InvAt-Answered js s.jobs s.world s.caller (SaveReach-Inv js n s a o r)
