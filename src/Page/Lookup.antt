-- ===== src/Page/Lookup.antt =====
-- Core/Page.cpp, sections 2 and 3: what the lookups of a page see after each operation.
use mathlib.Core.Option
use mini_database.Prelude.{
  ℕ, zero, suc, ◌<◌, ◌≡◌, refl, false, Bool-cases, inl, inr, Option, none, some, List, [], ◌∷◌,
  ◌++◌, append_assoc, append-nil, arith, ◌==◌, if◌then◌else◌, get_elem?, All, get_elem?-lt, ap, sym,
  ◌∙◌, Option-cases,
}
use mini_database.Packages.Json.{JsonLib}
use mini_database.Packages.Pool.{PoolLib}
use mini_database.Record
use mini_database.Record.{Record}
use mini_database.Page.{
  Page, Cell, get_record, get_record_at, is_live, find_live, write_at, compact_loop, compact,
}

module _ (J : JsonLib) (P : PoolLib) where
  open P use {Pool}

  -- The first live record with the id, read straight off the vector.
  unfoldable pub find_value : ℕ → List (Cell J P) → Option (Record J)
  find_value id [] = none
  find_value id (c ∷ cs) = if is_live J P id c then some c.value else find_value id cs

  -- How many live records have the id.
  unfoldable pub count_live : ℕ → List (Cell J P) → ℕ
  count_live id [] = 0
  count_live id (c ∷ cs) = if is_live J P id c then suc (count_live id cs) else count_live id cs

  abbrev pub at_position : List (Cell J P) → Option ℕ → Option (Record J)
  at_position cs none = none
  at_position cs (some i) = Option.map (λ c. c.value) (get_elem? cs i)

  at_position-suc :
      (c : Cell J P) (cs : List (Cell J P)) (o : Option ℕ)
      → at_position (c ∷ cs) (Option.map suc o) ≡ at_position cs o
  at_position-suc c cs none = refl
  at_position-suc c cs (some i) = refl

  -- The position that getRecord returns is that of the first live record with the id.
  find_live-find_value :
      (id : ℕ) (cs : List (Cell J P)) → at_position cs (find_live J P id cs) ≡ find_value id cs
  unfolding find_live find_value
  find_live-find_value id [] = refl
  find_live-find_value id (c ∷ cs) =
      ground (arith, at_position-suc c cs (find_live J P id cs), find_live-find_value id cs)

  pub find_value_count :
      (id : ℕ) (cs : List (Cell J P)) → find_value id cs ≡ none → count_live id cs ≡ 0
  unfolding find_value count_live
  find_value_count id [] h = refl
  find_value_count id (c ∷ cs) h = ground (arith, find_value_count id cs)

  pub count_find_value :
      (id : ℕ) (cs : List (Cell J P)) → count_live id cs ≡ 0 → find_value id cs ≡ none
  unfolding find_value count_live
  count_find_value id [] h = refl
  count_find_value id (c ∷ cs) h = ground (arith, count_find_value id cs)

  pub find_value-append :
      (id : ℕ) (cs : List (Cell J P)) (c : Cell J P)
      → count_live id cs ≡ 0
      → find_value id (cs ++ c ∷ []) ≡ (if is_live J P id c then some c.value else none)
  unfolding find_value count_live
  find_value-append id [] c h = refl
  find_value-append id (d ∷ cs) c h = ground (arith, find_value-append id cs c)

  pub find_value-append_ne :
      (id : ℕ) (cs : List (Cell J P)) (c : Cell J P)
      → is_live J P id c ≡ false
      → find_value id (cs ++ c ∷ []) ≡ find_value id cs
  unfolding find_value
  find_value-append_ne id [] c h = ground arith
  find_value-append_ne id (d ∷ cs) c h = ground (arith, find_value-append_ne id cs c)

  pub count_live-append :
      (id : ℕ) (cs : List (Cell J P)) (c : Cell J P)
      → count_live id (cs ++ c ∷ [])
        ≡ (if is_live J P id c then suc (count_live id cs) else count_live id cs)
  unfolding count_live
  count_live-append id [] c = refl
  count_live-append id (d ∷ cs) c = ground (arith, count_live-append id cs c)

  -- updateRecord's write: only the lookup of that id sees the new fields.
  pub find_value-update :
      (id : ℕ) (fields : JsonLib.Json J) (cs : List (Cell J P)) (i j : ℕ) (r : Record J)
      → find_live J P id cs ≡ some i
      → find_value id cs ≡ some r
      → find_value j (write_at J P cs i (λ existing. record existing { fields = fields }))
        ≡ (if id == j then some (record r { fields = fields }) else find_value j cs)
  unfolding find_live find_value write_at is_live Record.is_deleted Record.get_id
  find_value-update id fields [] i j r h e = cc
  find_value-update id fields (c ∷ cs) zero j r h e = ground arith
  find_value-update id fields (c ∷ cs) (suc i) j r h e =
      ground (arith, find_value-update id fields cs i j r)

  pub count_live-update :
      (fields : JsonLib.Json J) (cs : List (Cell J P)) (i j : ℕ)
      → count_live j (write_at J P cs i (λ existing. record existing { fields = fields }))
        ≡ count_live j cs
  unfolding count_live write_at is_live Record.is_deleted Record.get_id
  count_live-update fields [] i j = refl
  count_live-update fields (c ∷ cs) zero j = refl
  count_live-update fields (c ∷ cs) (suc i) j = ground (arith, count_live-update fields cs i j)

  -- deleteRecord's mark: one live record with the id less, the others as before.
  pub count_live-delete :
      (id : ℕ) (cs : List (Cell J P)) (i j : ℕ)
      → find_live J P id cs ≡ some i
      → count_live j cs ≡ (
          if id == j
          then suc (count_live j (write_at J P cs i (Record.mark_deleted J)))
          else count_live j (write_at J P cs i (Record.mark_deleted J)))
  unfolding count_live find_live write_at is_live Record.is_deleted Record.get_id
      Record.mark_deleted
  count_live-delete id [] i j h = cc
  count_live-delete id (c ∷ cs) zero j h = ground arith
  count_live-delete id (c ∷ cs) (suc i) j h = ground (arith, count_live-delete id cs i j)

  pub find_value-delete_ne :
      (id : ℕ) (cs : List (Cell J P)) (i j : ℕ)
      → find_live J P id cs ≡ some i
      → (id == j) ≡ false
      → find_value j (write_at J P cs i (Record.mark_deleted J)) ≡ find_value j cs
  unfolding find_live find_value write_at is_live Record.is_deleted Record.get_id
      Record.mark_deleted
  find_value-delete_ne id [] i j h ne = cc
  find_value-delete_ne id (c ∷ cs) zero j h ne = ground arith
  find_value-delete_ne id (c ∷ cs) (suc i) j h ne = ground (arith, find_value-delete_ne id cs i j)

  -- What compact keeps.
  unfoldable pub live_cells : List (Cell J P) → List (Cell J P)
  live_cells [] = []
  live_cells (c ∷ cs) =
      let rest = live_cells cs in if Record.is_deleted J c.value then rest else c ∷ rest

  compact_loop-live_cells :
      (cs live : List (Cell J P)) (pool : Pool)
      → (compact_loop J P cs live pool).0 ≡ live ++ live_cells cs
  unfolding compact_loop live_cells
  compact_loop-live_cells [] live pool = rw append-nil
  compact_loop-live_cells (c ∷ cs) live pool = ground (
    arith,
    compact_loop-live_cells cs live (PoolLib.destroy P pool c.slot),
    compact_loop-live_cells cs (live ++ c ∷ []) pool,
    append_assoc live (c ∷ []) (live_cells cs),
  )

  pub find_value-live_cells :
      (id : ℕ) (cs : List (Cell J P)) → find_value id (live_cells cs) ≡ find_value id cs
  unfolding find_value live_cells is_live
  find_value-live_cells id [] = refl
  find_value-live_cells id (c ∷ cs) = ground (arith, find_value-live_cells id cs)

  pub count_live-live_cells :
      (id : ℕ) (cs : List (Cell J P)) → count_live id (live_cells cs) ≡ count_live id cs
  unfolding count_live live_cells is_live
  count_live-live_cells id [] = refl
  count_live-live_cells id (c ∷ cs) = ground (arith, count_live-live_cells id cs)

  -- Every record that is left is live.
  live_cells-live :
      (cs : List (Cell J P)) → All (λ c. Record.is_deleted J c.value ≡ false) (live_cells cs)
  unfolding live_cells
  live_cells-live [] = tt
  live_cells-live (c ∷ cs) = elim (Bool-cases (Record.is_deleted J c.value)) [
    | inl gone ↦ rw (gone, live_cells) (live_cells-live cs)
    | inr kept ↦ rw (kept, live_cells) (kept, live_cells-live cs)
  ]

  compact-records : (p : Page J P) → (compact J P p).0.records ≡ live_cells p.records
  unfolding compact
  compact-records p = compact_loop-live_cells p.records [] p.pool

  -- After compact no record of the page is marked deleted, and for every id the first live record and
  -- the number of live records are what they were.
  pub find_value-compact :
      (p : Page J P)
      → ((id : ℕ)
          → (find_value id (compact J P p).0.records ≡ find_value id p.records)
            × (count_live id (compact J P p).0.records ≡ count_live id p.records))
        × All (λ c. Record.is_deleted J c.value ≡ false) (compact J P p).0.records
  find_value-compact p = rw (compact-records p) (
    λ id. (find_value-live_cells id p.records, count_live-live_cells id p.records),
    live_cells-live p.records,
  )

  find_live-some :
      (id : ℕ) (cs : List (Cell J P)) (r : Record J)
      → find_value id cs ≡ some r
      → (k : ℕ) × (find_live J P id cs ≡ some k) × (at_position cs (some k) ≡ some r)
  find_live-some id cs r h = elim (Option-cases (find_live J P id cs)) [
    | inl e ↦ absurd (cc (find_live-find_value id cs, ap (at_position cs) e))
    | inr (k, e) ↦ (k, e, ap (at_position cs) (sym e) ∙ find_live-find_value id cs ∙ h)
  ]

  get_record_at-some :
      (p : Page J P) (k : ℕ) (r : Record J)
      → at_position p.records (some k) ≡ some r
      → get_record_at J P p k ≡ some r
  unfolding get_record_at
  get_record_at-some p k r h = elim (Option-cases (get_elem? p.records k)) [
    | inl e ↦ absurd (ground arith)
    | inr (c, e) ↦ ground (arith, get_elem?-lt p.records k c e)
  ]

  -- getRecord points at the first live record with the id.
  pub get_record-some :
      (p : Page J P) (id : ℕ) (r : Record J)
      → find_value id p.records ≡ some r
      → (k : ℕ) × (get_record J P p id ≡ some k) × (get_record_at J P p k ≡ some r)
  unfolding get_record
  get_record-some p id r h =
      let (k, e, v) = find_live-some id p.records r h in (k, e, get_record_at-some p k r v)

  find_live-none :
      (id : ℕ) (cs : List (Cell J P)) → find_value id cs ≡ none → find_live J P id cs ≡ none
  unfolding find_live find_value
  find_live-none id [] h = refl
  find_live-none id (c ∷ cs) h = ground (arith, find_live-none id cs)

  get_record-none :
      (p : Page J P) (id : ℕ) → find_value id p.records ≡ none → get_record J P p id ≡ none
  unfolding get_record
  get_record-none p id h = find_live-none id p.records h

  pub count_live_pos :
      (id : ℕ) (cs : List (Cell J P)) (r : Record J)
      → find_value id cs ≡ some r
      → 0 < count_live id cs
  unfolding find_value count_live
  count_live_pos id [] r h = cc
  count_live_pos id (c ∷ cs) r h = ground (arith, count_live_pos id cs r)
