-- ===== src/Serializer/Consistency.antt =====
-- Engine/Serializer.cpp: importing into a database keeps it consistent.
use mini_database.Prelude.{
  ℕ, ◌+◌, ◌%◌, ◌^◌, ◌≡◌, refl, ap, ◌∙◌, subst, none, some, List, [], ◌∷◌, String, arith, ◌==◌,
  Bool-cases, Option-cases, inl, inr,
}
use mini_database.Common.{Status, ok}
use mini_database.Packages.Json.{JsonLib}
use mini_database.Packages.Pool.{PoolLib}
use mini_database.Packages.Text.{TextLib}
use mini_database.Packages.Files.{Files}
use mini_database.Record.{Record}
use mini_database.Table
use mini_database.Table.{Table, IdMap, find_page_with_slot, first_with_slot, next_page_id}
use mini_database.Database
use mini_database.Database.{Database, NameMap, Cell}
use mini_database.FileIo.Whole.{read_file}
use mini_database.Table.Contract.{is_ok}
use mini_database.Database.Cells.{find_address}
use mini_database.Database.Invariant.{IsConsistent}
use mini_database.Database.Frames.{Same, nil, cons, Same-refl, IsConsistent-Same}
use mini_database.Serializer.{record_of, import_entries, import_table_from_json}
use mini_database.Serializer.Whole.{
  set_table, import_named, import_tables, import_database_from_json,
}

module _ (J : JsonLib) (P : PoolLib) (M : IdMap) where
  -- The same name and id.
  abbrev Keeps : Table J P M → Table J P M → Type 0
  Keeps t u = (t.name ≡ u.name) × (t.id ≡ u.id)

  insert_record-Keeps :
      (t u : Table J P M) (r : Record J) (s : Status)
      → Table.insert_record J P M t r ≡ some (u, s)
      → Keeps t u
  unfolding Table.insert_record find_page_with_slot next_page_id
  insert_record-Keeps t u r s e = (ground (arith, e), ground (arith, e))

  import_entries-Keeps :
      (entries : List J.Json) (next_id : ℕ) (t u : Table J P M) (s : Status)
      → import_entries J P M next_id entries t ≡ some (u, s)
      → Keeps t u
  unfolding import_entries
  import_entries-Keeps [] next_id t u s e = (ground (arith, e), ground (arith, e))
  import_entries-Keeps (entry ∷ entries) next_id t u s e =
      elim (Option-cases (record_of J next_id entry)) [
        | inl n ↦ absurd (ground (arith, e, n))
        | inr (r, n) ↦ elim (Option-cases (Table.insert_record J P M t r)) [
          | inl m ↦ absurd (ground (arith, e, n, m))
          | inr ((v, ok), m) ↦
              let (a, b) = insert_record-Keeps t v r ok m in
              let (c, d) =
                import_entries-Keeps entries ((next_id + 1) % 2 ^ 64) v u s
                  (ground (arith, e, n, m)) in
              (a ∙ c, b ∙ d)
          | inr ((v, status), m) ↦
              let (a, b) = insert_record-Keeps t v r _ m in
              (ground (arith, e, n, m, a), ground (arith, e, n, m, b))
        ]
      ]

  import_table_from_json-Keeps :
      (t u : Table J P M) (value : J.Json) (s : Status)
      → import_table_from_json J P M t value ≡ some (u, s)
      → Keeps t u
  unfolding import_table_from_json
  import_table_from_json-Keeps t u value s e = elim (Option-cases (J.as_array value)) [
    | inl n ↦ (ground (arith, e, n), ground (arith, e, n))
    | inr (entries, n) ↦ elim (Bool-cases (J.is_null value)) [
      | inl is ↦ (ground (arith, e, is), ground (arith, e, is))
      | inr isnt ↦ elim (Bool-cases (J.is_array value)) [
        | inl is ↦ import_entries-Keeps entries 0 t u s (ground (arith, e, n, isnt, is))
        | inr other ↦ (ground (arith, e, isnt, other), ground (arith, e, isnt, other))
      ]
    ]
  ]

  set_table-Same :
      (a : ℕ) (t : Table J P M) (c : Cell J P M) (cs : List (Cell J P M))
      → find_address J P M a cs ≡ some c
      → Keeps c.value t
      → Same J P M cs (set_table J P M a t cs)
  unfolding set_table find_address
  set_table-Same a t c [] e k = nil
  set_table-Same a t c (d ∷ cs) e (n, i) = elim (Bool-cases (a == d.address)) [
    | inl hit ↦
        let same : d ≡ c = ground (arith, e, hit) in
        rw (set_table, hit)
          (cons (refl, ap (λ x. x.value.name) same ∙ n, ap (λ x. x.value.id) same ∙ i)
            (Same-refl J P M cs))
    | inr miss ↦
        rw (set_table, miss)
          (cons (refl, refl, refl) (set_table-Same a t c cs (ground (arith, e, miss)) (n, i)))
  ]

  module _ (N : NameMap) where
    import_named-IsConsistent :
        (db after : Database J P M N) (table_name : String) (value : J.Json) (s : Status)
        → IsConsistent J P M N db
        → import_named J P M N db table_name value ≡ some (after, s)
        → IsConsistent J P M N after
    unfolding import_named
    import_named-IsConsistent db after table_name value s inv e =
        elim (Bool-cases (Database.has_table J P M N db table_name)) [
          | inr absent ↦ subst (IsConsistent J P M N) (ground (arith, e, absent)) inv
          | inl there ↦ elim (Option-cases (Database.get_table J P M N db table_name)) [
            | inl m ↦ absurd (ground (arith, e, there, m))
            | inr (none, m) ↦ subst (IsConsistent J P M N) (ground (arith, e, there, m)) inv
            | inr (some a, m) ↦ elim (Option-cases (find_address J P M a db.tables)) [
              | inl n ↦ absurd (ground (arith, e, there, m, n))
              | inr (c, n) ↦ elim (Option-cases (import_table_from_json J P M c.value value)) [
                | inl i ↦ absurd (ground (arith, e, there, m, n, i))
                | inr ((t, status), i) ↦
                    subst (IsConsistent J P M N) (ground (arith, e, there, m, n, i)) (
                      IsConsistent-Same J P M N db (set_table J P M a t db.tables)
                        (set_table-Same a t c db.tables n
                          (import_table_from_json-Keeps c.value t value status i))
                        inv)
              ]
            ]
          ]
        ]

    import_tables-IsConsistent :
        (named : List (String × J.Json)) (db after : Database J P M N) (s : Status)
        → IsConsistent J P M N db
        → import_tables J P M N named db ≡ some (after, s)
        → IsConsistent J P M N after
    unfolding import_tables
    import_tables-IsConsistent [] db after s inv e =
        subst (IsConsistent J P M N) (ground (arith, e)) inv
    import_tables-IsConsistent ((table_name, value) ∷ rest) db after s inv e =
        elim (Option-cases (import_named J P M N db table_name value)) [
          | inl n ↦ absurd (ground (arith, e, n))
          | inr ((between, ok), n) ↦
              import_tables-IsConsistent rest between after s
                (import_named-IsConsistent db between table_name value ok inv n)
                (ground (arith, e, n))
          | inr ((between, status), n) ↦
              subst (IsConsistent J P M N) (ground (arith, e, n))
                (import_named-IsConsistent db between table_name value _ inv n)
        ]

    abbrev text : (T : TextLib) (F : Files) → String → Files.World F → String
    text T F path w =
        TextLib.text_of T (elim (read_file F path w).0 [ none ↦ [] | some bytes ↦ bytes ])

    -- importDatabaseFromJson, whatever the file holds and whatever it answers, leaves a consistent database
    -- consistent unless it raises an exception.
    pub import_database_from_json-IsConsistent :
        (T : TextLib) (F : Files) (db after : Database J P M N) (path : String) (w : Files.World F)
        (s : Status)
        → IsConsistent J P M N db
        → import_database_from_json J P M N T F db path w ≡ some (after, s)
        → IsConsistent J P M N after
    unfolding import_database_from_json
    import_database_from_json-IsConsistent T F db after path w s inv e =
        elim (Bool-cases (is_ok (read_file F path w).1)) [
          | inr broken ↦ subst (IsConsistent J P M N) (ground (arith, e, broken)) inv
          | inl got ↦ elim (Option-cases (J.parse (text T F path w))) [
            | inl n ↦ absurd (ground (arith, e, got, n))
            | inr (envelope, n) ↦ elim (Bool-cases (J.is_null envelope)) [
              | inl is ↦ subst (IsConsistent J P M N) (ground (arith, e, got, n, is)) inv
              | inr isnt ↦ elim (Option-cases (J.entries envelope)) [
                | inl m ↦ absurd (ground (arith, e, got, n, isnt, m))
                | inr (named, m) ↦
                    import_tables-IsConsistent named db after s inv
                      (ground (arith, e, got, n, isnt, m))
              ]
            ]
          ]
        ]
