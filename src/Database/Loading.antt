-- ===== src/Database/Loading.antt =====
-- Core/Database.cpp, section 3, with save and load: what a load leaves, and a database loaded from its file.
use mini_database.Prelude.{
  ℕ, ◌≡◌, ◌⊎◌, inl, inr, refl, Bool-cases, Option-cases, Option, some, none, List, [], String,
  arith, length, ltb, ◌>>=◌,
}
use mini_database.Common.{Status, ok, max_tables, parse_error, out_of_memory}
use mini_database.Packages.Json.{JsonLib}
use mini_database.Packages.Pool.{PoolLib}
use mini_database.Packages.Text.{TextLib}
use mini_database.Packages.Files.{Files}
use mini_database.FileIo.Whole.{read_file}
use mini_database.Table.{IdMap}
use mini_database.Database.{Database, NameMap}
use mini_database.Database.Forms.{
  Scratch, no_tables, load_tables, rebuilt, replace, after_loop, from_json, load, load_text,
  after_read, or_parse_error,
}

module _ (J : JsonLib) (P : PoolLib) (M : IdMap) (N : NameMap) where
  open J use {
    Json, object, array, of_string, is_null, is_object, as_string, as_array, at, put, dump, parse,
    object-is_object, put-is_object, object-not_null, at-put, as_array-array, as_string-of_string,
  }

  module _ (db : Database J P M N) where
    -- What fromJson and load leave: the database as it was, unless the status is the good one.
    abbrev pub Kept {ℓ} : {S : Type ℓ} → S → Option (Database J P M N × S) → Type ℓ
    Kept {S = S} good answer =
        (u : Database J P M N) × (s : S) × (answer ≡ some (u, s)) × ((s ≡ good) ⊎ (u ≡ db))

    abbrev pub name_of : Json → Option String
    name_of envelope = at envelope "__db_name__" >>= as_string

    after_loop-Kept :
        (envelope : Json) (name : String) (r : Scratch J P M N × Option Status)
        → name_of envelope ≡ some name
        → Kept (some ok) (after_loop J P M N db envelope r)
    unfolding after_loop replace
    after_loop-Kept envelope name (scratch, none) named = (db, none, refl, inr refl)
    after_loop-Kept envelope name (scratch, some ok) named =
        (rebuilt J P M N name scratch, some ok, ground (arith, named), inl refl)
    after_loop-Kept envelope name (scratch, some failed) named = (db, some failed, refl, inr refl)

    from_json-Kept :
        (envelope : Json) (name : String)
        → name_of envelope ≡ some name
        → Kept (some ok) (from_json J P M N db envelope)
    unfolding from_json
    from_json-Kept envelope name named = elim (Bool-cases (is_null envelope)) [
      | inl null ↦ (db, some parse_error, ground (arith, null), inr refl)
      | inr there ↦ elim (Option-cases (at envelope "tables" >>= as_array)) [
        | inl e ↦ (db, none, ground (arith, there, e), inr refl)
        | inr (entries, e) ↦ elim (Bool-cases (ltb max_tables (length entries))) [
          | inl many ↦ (db, some out_of_memory, ground (arith, there, e, many), inr refl)
          | inr few ↦
              let (u, s, s-eq, h) =
                after_loop-Kept envelope name
                  (load_tables J P M N (no_tables J P M N db.next_address) entries) named in
              (u, s, ground (arith, there, e, few, s-eq), h)
        ]
      ]
    ]

    -- A text that is no JSON document, or one with a text under "__db_name__".
    abbrev pub IsNamed : String → Type 0
    IsNamed text =
        (envelope : Json)
        → parse text ≡ some envelope
        → (name : String) × (name_of envelope ≡ some name)

    or_parse_error-Kept :
        (o : Option (Database J P M N × Option Status))
        → Kept (some ok) o
        → Kept ok (or_parse_error J P M N o)
    or_parse_error-Kept none (u, s, s-eq, h) = cc
    or_parse_error-Kept (some (v, none)) (u, s, s-eq, h) =
        (v, parse_error, refl, ground (arith, s-eq, h))
    or_parse_error-Kept (some (v, some t)) (u, s, s-eq, h) = (v, t, refl, ground (arith, s-eq, h))

    load_text-Kept : (text : String) → IsNamed text → Kept ok (load_text J P M N db text)
    unfolding load_text
    load_text-Kept text named = elim (Option-cases (parse text)) [
      | inl e ↦ (db, parse_error, ground (arith, e), inr refl)
      | inr (envelope, e) ↦ elim (Bool-cases (is_null envelope)) [
        | inl null ↦ (db, parse_error, ground (arith, e, null), inr refl)
        | inr there ↦
            let (name, n) = named envelope e in
            let (u, s, s-eq, h) =
              or_parse_error-Kept (from_json J P M N db envelope)
                (from_json-Kept envelope name n) in
            (u, s, ground (arith, e, there, s-eq), h)
      ]
    ]

    module _ (T : TextLib) (F : Files) where
      -- What load parses.
      abbrev pub text_in : Option (List ℕ) → String
      text_in raw = TextLib.text_of T (elim raw [ none ↦ [] | some bytes ↦ bytes ])

      after_read-Kept :
          (r : Option (List ℕ) × Status)
          → IsNamed (text_in r.0)
          → Kept ok (after_read J P M N T F db r)
      unfolding after_read
      after_read-Kept (raw, ok) named = load_text-Kept (text_in raw) named
      after_read-Kept (raw, failed) named = (db, failed, refl, inr refl)

      -- load returns, and leaves the database as it was unless it answers ok, if what it reads is no
      -- JSON document or one with a text under "__db_name__".
      pub load-Kept :
          (path : String) (w : Files.World F)
          → IsNamed (text_in (read_file F path w).0)
          → Kept ok (load J P M N T F db path w)
      unfolding load
      load-Kept path w named = after_read-Kept (read_file F path w) named
