-- ===== src/Serializer/Exports.antt =====
-- Engine/Serializer.cpp: an export lists the live records in order.
use mini_database.Prelude.{
  ℕ, ◌+◌, ◌≡◌, refl, ap, sym, ◌∙◌, some, List, [], ◌∷◌, ◌++◌, map, append_assoc, append-nil, arith,
  Bool-cases, inl, inr, length, length-append, get_elem?-append_len,
}
use mini_database.Packages.Json.{JsonLib}
use mini_database.Packages.Pool.{PoolLib}
use mini_database.Record
use mini_database.Record.{Record}
use mini_database.Page
use mini_database.Page.{Page, Cell}
use mini_database.Table.{Table, IdMap}
use mini_database.Query.Rows.{live_cells, live_records}
use mini_database.Serializer.{entry_of, export_records, export_pages, exported}

map-append : {A B : Type 0} (f : A → B) (xs ys : List A) → map f (xs ++ ys) ≡ map f xs ++ map f ys
map-append f [] ys = refl
map-append f (x ∷ xs) ys = ap (λ l. f x ∷ l) (map-append f xs ys)

module _ (J : JsonLib) (P : PoolLib) where
  -- The inner loop from a cell on.
  export_records-cells :
      (cs front : List (Cell J P)) (page : Page J P) (i : ℕ) (entries : List J.Json)
      → page.records ≡ front ++ cs
      → i ≡ length front
      → export_records J P (length cs) i page entries
        ≡ entries ++ map (entry_of J) (live_cells J P cs)
  unfolding export_records live_cells Record.is_deleted
  export_records-cells [] front page i entries here at = sym (append-nil entries)
  export_records-cells (c ∷ cs) front page i entries here at =
      let read : Page.get_record_at J P page i ≡ some c.value =
        unfold Page.get_record_at in
        ground (arith, here, at, get_elem?-append_len front c i cs, length-append front (c ∷ cs)) in
      let rest : (es : List J.Json)
          → export_records J P (length cs) (i + 1) page es
            ≡ es ++ map (entry_of J) (live_cells J P cs) =
        λ es.
          export_records-cells cs (front ++ c ∷ []) page (i + 1) es
            (here ∙ sym (append_assoc front (c ∷ []) cs))
            (omega (arith, length-append front (c ∷ []))) in
      elim (Bool-cases c.value.deleted) [
        | inl dead ↦ ground (arith, read, dead, rest entries)
        | inr alive ↦ ground (
          arith,
          read,
          alive,
          rest (entries ++ entry_of J c.value ∷ []),
          append_assoc entries (entry_of J c.value ∷ []) (map (entry_of J) (live_cells J P cs)),
        )
      ]

  export_pages-live :
      (ps : List (Page J P)) (entries : List J.Json)
      → export_pages J P ps entries ≡ entries ++ map (entry_of J) (live_records J P ps)
  unfolding export_pages live_records Page.record_count
  export_pages-live [] entries = sym (append-nil entries)
  export_pages-live (p ∷ ps) entries =
      ap (export_pages J P ps) (export_records-cells p.records [] p 0 entries refl refl)
      ∙ export_pages-live ps (entries ++ map (entry_of J) (live_cells J P p.records))
      ∙ append_assoc entries (map (entry_of J) (live_cells J P p.records))
          (map (entry_of J) (live_records J P ps))
      ∙ ap (λ l. entries ++ l)
          (sym (map-append (entry_of J) (live_cells J P p.records) (live_records J P ps)))

  pub exported-live :
      (M : IdMap) (table : Table J P M)
      → exported J P M table ≡ J.array (map (entry_of J) (live_records J P table.pages))
  unfolding exported
  exported-live M table = ap J.array (export_pages-live table.pages [])
