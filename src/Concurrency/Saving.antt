-- ===== src/Concurrency/Saving.antt =====
-- Engine/Concurrency.cpp, sections 3 and 5: what the files hold, whatever the order of the tasks' calls.
use mini_database.Prelude.{
  ℕ, zero, suc, ◌≡◌, refl, sym, subst, some, List, [], ◌∷◌, ◌++◌, All, All-map, String, get_elem?,
  arith,
}
use mini_database.Packages.Files.{Files}
use mini_database.FileIo.Interleaved.{Held, Quiet, Apart, Held-Quiet, advance-Held, advance-Quiet}
use mini_database.Concurrency.Saves.{Job, next_call}

-- No two tasks write the same file.
abbrev pub AllApart : Files → List Job → Type 0
AllApart F [] = Unit
AllApart F (j ∷ js) = All (λ k. Apart F j.path k.path × Apart F k.path j.path) js × AllApart F js

module _ (F : Files) (start : Files.World F) where
  open F use {World, content}

  -- The task `t` is the task `j` on its way.
  abbrev pub Tracks : World → Job → Job → Type 0
  Tracks w j t =
      (t.path ≡ j.path)
      × (t.content ≡ j.content)
      × Held F t.path t.content (content start t.path) t.phase w

  abbrev pub Tracked : World → List Job → List Job → Type 0
  Tracked w [] [] = Unit
  Tracked w (j ∷ js) (t ∷ ts) = Tracks w j t × Tracked w js ts
  Tracked w _ _ = ⊥

  Tracked-Quiet :
      (w w' : World) (js ts : List Job)
      → All (λ j. Quiet F j.path w w') js
      → Tracked w js ts
      → Tracked w' js ts
  Tracked-Quiet w w' [] [] q h = tt
  Tracked-Quiet w w' [] (t ∷ ts) q h = absurd h
  Tracked-Quiet w w' (j ∷ js) [] q h = absurd h
  Tracked-Quiet w w' (j ∷ js) (t ∷ ts) (q, qs) ((p, c, h), hs) = (
    (
      p,
      c,
      Held-Quiet F t.path t.content (content start t.path) t.phase w w'
          (subst (λ x. Quiet F x w w') (sym p) q) h,
    ),
    Tracked-Quiet w w' js ts qs hs,
  )

  -- What holds of all files holds of a task's.
  picked {ℓ} :
      (Q : String → Type ℓ) (w : World) (js before after : List Job) (t : Job)
      → Tracked w js (before ++ t ∷ after)
      → All (λ j. Q j.path) js
      → Q t.path × Held F t.path t.content (content start t.path) t.phase w
  picked Q w [] [] after t h q = absurd h
  picked Q w [] (b ∷ before) after t h q = absurd h
  picked Q w (j ∷ js) [] after t ((p, c, h), hs) (q, qs) = (subst Q (sym p) q, h)
  picked Q w (j ∷ js) (b ∷ before) after t (h, hs) (q, qs) = picked Q w js before after t hs qs

  pub Tracked-Held :
      (w : World) (js before after : List Job) (t : Job)
      → Tracked w js (before ++ t ∷ after)
      → Held F t.path t.content (content start t.path) t.phase w
  Tracked-Held w [] [] after t h = absurd h
  Tracked-Held w [] (b ∷ before) after t h = absurd h
  Tracked-Held w (j ∷ js) [] after t ((p, c, h), hs) = h
  Tracked-Held w (j ∷ js) (b ∷ before) after t (h, hs) = Tracked-Held w js before after t hs

  pub Tracked-call :
      (w : World) (js before after : List Job) (t : Job)
      → AllApart F js
      → Tracked w js (before ++ t ∷ after)
      → Tracked (next_call F t w).1 js (before ++ (next_call F t w).0 ∷ after)
  unfolding next_call
  Tracked-call w [] [] after t a h = absurd h
  Tracked-call w [] (b ∷ before) after t a h = absurd h
  Tracked-call w (j ∷ js) [] after t (a, as') ((p, c, h), hs) = (
    (p, c, advance-Held F t.path t.content (content start t.path) t.phase w h),
    Tracked-Quiet w (next_call F t w).1 js after
        (All-map _ _ js
          (λ k x.
            advance-Quiet F t.path k.path t.content (content start t.path) t.phase w
              (subst (λ y. Apart F y k.path) (sym p) x.0) h)
          a)
        hs,
  )
  Tracked-call w (j ∷ js) (b ∷ before) after t (a, as') ((p, c, h), hs) =
      let (x, held) = picked (λ y. Apart F j.path y × Apart F y j.path) w js before after t hs a in
      let quiet : Quiet F j.path w (next_call F t w).1 =
        advance-Quiet F t.path j.path t.content (content start t.path) t.phase w x.1 held in
      (
        (
          p,
          c,
          Held-Quiet F b.path b.content (content start b.path) b.phase w (next_call F t w).1
              (subst (λ y. Quiet F y w (next_call F t w).1) (sym p) quiet) h,
        ),
        Tracked-call w js before after t as' hs,
      )

  -- The task that stands there is the one that was enqueued there.
  pub Tracked-get :
      (w : World) (js ts : List Job) (n : ℕ) (t : Job)
      → Tracked w js ts
      → get_elem? ts n ≡ some t
      → (j : Job) × (get_elem? js n ≡ some j) × Tracks w j t
  Tracked-get w [] [] n t h e = absurd (ground (arith, e))
  Tracked-get w [] (u ∷ ts) n t h e = absurd h
  Tracked-get w (j ∷ js) [] n t h e = absurd h
  Tracked-get w (j ∷ js) (u ∷ ts) zero t (h, hs) e =
      let same : u ≡ t = ground (arith, e) in (j, refl, subst (Tracks w j) same h)
  Tracked-get w (j ∷ js) (u ∷ ts) (suc n) t (h, hs) e = Tracked-get w js ts n t hs e
