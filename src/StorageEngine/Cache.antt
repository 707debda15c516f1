-- ===== src/StorageEngine/Cache.antt =====
-- Engine/StorageEngine.cpp: the page cache against a map from keys to pages.
use mathlib.Core.Option
use mini_database.Prelude.{
  ℕ, ◌≡◌, ◌≢◌, inl, inr, refl, ap, sym, ◌∙◌, subst, true, false, ◌&&◌, Option, none, some, List,
  String, str_eq, str_eq_iff, if◌then◌else◌, arith, Bool-cases, Option-cases,
}
use mini_database.Common.{Status, ok, not_found}
use mini_database.Packages.Json.{JsonLib}
use mini_database.Packages.Pool.{PoolLib}
use mini_database.Packages.Text.{TextLib}
use mini_database.Packages.Posix.{Posix}
use mini_database.FileIo.{write_slot}
use mini_database.Page.{Page}
use mini_database.Table.Contract.{is_ok}
use mini_database.StorageEngine
use mini_database.StorageEngine.{StorageEngine, PageCache, cache_key, or_empty, page_file_path}

ok_of_is_ok : (s : Status) → is_ok s ≡ true → s ≡ ok
ok_of_is_ok s h = ground (arith, h)

write_slot-ne-not_found :
    (S : Posix) (path : String) (slot_index size : ℕ) (payload : List ℕ) (w : Posix.World S)
    → (write_slot S path slot_index size payload w).1 ≢ not_found
unfolding write_slot
write_slot-ne-not_found S path slot_index size payload w = ground arith

module _ (J : JsonLib) (P : PoolLib) (T : TextLib) (S : Posix) (C : PageCache J P) where
  open C use {
    peek, contains-peek, get-peek, peek-get, peek-store, peek-erase, peek-put, peek-put-other,
    Cache,
  }
  open S use {World}

  -- What the cache holds: the pages by key.
  abbrev pub view : StorageEngine J P C → String → Option (Page J P)
  view e = peek e.page_cache

  abbrev pub cleaned : Page J P → Page J P
  cleaned page = record page { dirty = false }

  cleaned-clean : (page : Page J P) → page.dirty ≡ false → cleaned page ≡ page
  cleaned-clean page clean = λ i. record page { dirty = sym clean i }

  module _ (e : StorageEngine J P C) (table_name : String) (id : ℕ) (w : World) where
    abbrev pub key : String
    key = cache_key T table_name id

    -- What flushPage does outside the cache: the files and the status.
    abbrev pub flushed : Option (Page J P) → World × Status
    flushed none = (w, not_found)
    flushed (some page) =
        if page.dirty then StorageEngine.write_page J P T S C e table_name page w else (w, ok)

    -- What flushPage promises of its answer.
    abbrev pub Flushed : StorageEngine J P C × World × Status → Type 0
    Flushed answer =
        (answer.1 ≡ (flushed (view e key)).0)
        × (answer.2 ≡ (flushed (view e key)).1)
        × ((j : String)
            → view answer.0 j ≡ (
                if is_ok (flushed (view e key)).1 && str_eq key j
                then Option.map cleaned (view e j)
                else view e j))

    abbrev looked_up : StorageEngine J P C
    looked_up = record e { page_cache = (C.get e.page_cache key).0 }

    flush_page-none :
        view e key ≡ none
        → StorageEngine.flush_page J P T S C e table_name id w ≡ (looked_up, w, not_found)
    unfolding StorageEngine.flush_page cache_key
    flush_page-none absent = rw (StorageEngine.flush_page, get-peek e.page_cache key, absent) refl

    flush_page-clean :
        (page : Page J P)
        → view e key ≡ some page
        → page.dirty ≡ false
        → StorageEngine.flush_page J P T S C e table_name id w ≡ (looked_up, w, ok)
    unfolding StorageEngine.flush_page cache_key
    flush_page-clean page held clean =
        rw (StorageEngine.flush_page, get-peek e.page_cache key, held, clean) refl

    module _ (page : Page J P) (held : view e key ≡ some page) (changed : page.dirty ≡ true) where
      abbrev write : World × Status
      write = StorageEngine.write_page J P T S C e table_name page w

      flush_page-written :
          write.1 ≡ ok
          → StorageEngine.flush_page J P T S C e table_name id w ≡ (
            record e { page_cache = C.store (C.get e.page_cache key).0 key (cleaned page) },
            write.0,
            ok,
          )
      unfolding StorageEngine.flush_page cache_key
      flush_page-written stored = ground (arith, get-peek e.page_cache key, held, changed, stored)

      flush_page-failed :
          is_ok write.1 ≡ false
          → StorageEngine.flush_page J P T S C e table_name id w ≡ (looked_up, write.0, write.1)
      unfolding StorageEngine.flush_page cache_key
      flush_page-failed broken = ground (arith, get-peek e.page_cache key, held, changed, broken)

    at_key : (j : String) → str_eq key j ≡ true → view e j ≡ view e key
    at_key j same = ap (view e) (sym ((str_eq_iff key j).0 same))

    flush_page-Flushed : Flushed (StorageEngine.flush_page J P T S C e table_name id w)
    flush_page-Flushed = elim (Option-cases (view e key)) [
      | inl absent ↦ subst Flushed (sym (flush_page-none absent)) (
        ground (arith, absent),
        ground (arith, absent),
        λ j. ground (arith, absent, peek-get e.page_cache key j),
      )
      | inr (page, held) ↦ elim (Bool-cases page.dirty) [
        | inr clean ↦ subst Flushed (sym (flush_page-clean page held clean)) (
          ground (arith, held, clean),
          ground (arith, held, clean),
          λ j.
              ground (
                arith,
                held,
                clean,
                peek-get e.page_cache key j,
                at_key j,
                cleaned-clean page clean,
              ),
        )
        | inl changed ↦ elim (Bool-cases (is_ok (write page held changed).1)) [
          | inr broken ↦ subst Flushed (sym (flush_page-failed page held changed broken)) (
            ground (arith, held, changed),
            ground (arith, held, changed),
            λ j. ground (arith, held, changed, broken, peek-get e.page_cache key j),
          )
          | inl stored ↦
              let stored' : (write page held changed).1 ≡ ok =
                ok_of_is_ok (write page held changed).1 stored in
              subst Flushed (sym (flush_page-written page held changed stored')) (
                ground (arith, held, changed),
                ground (arith, held, changed, stored'),
                λ j. ground (
                  arith,
                  held,
                  changed,
                  stored',
                  peek-get e.page_cache key j,
                  peek-get e.page_cache key key,
                  at_key j,
                  peek-store (C.get e.page_cache key).0 key j (cleaned page),
                ),
              )
        ]
      ]
    ]

    -- What evictPage does outside the cache: a changed page is written.
    abbrev pub evicted : Option (Page J P) → World × Status
    evicted none = (w, ok)
    evicted (some page) =
        if page.dirty then StorageEngine.write_page J P T S C e table_name page w else (w, ok)

    -- What evictPage promises of its answer.
    abbrev pub Evicted : StorageEngine J P C × World × Status → Type 0
    Evicted answer =
        (answer.1 ≡ (evicted (view e key)).0)
        × (answer.2 ≡ (evicted (view e key)).1)
        × ((j : String)
            → view answer.0 j
              ≡ (if is_ok (evicted (view e key)).1 && str_eq key j then none else view e j))

    abbrev flush : StorageEngine J P C × World × Status
    flush = StorageEngine.flush_page J P T S C e table_name id w

    evict_page-absent :
        flush.2 ≡ not_found
        → StorageEngine.evict_page J P T S C e table_name id w ≡ (flush.0, flush.1, ok)
    unfolding StorageEngine.evict_page
    evict_page-absent e' = ground (arith, e')

    evict_page-flushed :
        flush.2 ≡ ok
        → StorageEngine.evict_page J P T S C e table_name id w
          ≡ (record flush.0 { page_cache = C.erase flush.0.page_cache key }, flush.1, ok)
    unfolding StorageEngine.evict_page
    evict_page-flushed e' = ground (arith, e')

    evict_page-failed :
        is_ok flush.2 ≡ false
        → flush.2 ≢ not_found
        → StorageEngine.evict_page J P T S C e table_name id w ≡ flush
    unfolding StorageEngine.evict_page
    evict_page-failed e' n = ground (arith, e', n)

    write_page-ne-not_found :
        (page : Page J P) → (StorageEngine.write_page J P T S C e table_name page w).1 ≢ not_found
    unfolding StorageEngine.write_page
    write_page-ne-not_found page = write_slot-ne-not_found S _ _ _ _ w

    same_effect :
        (page : Page J P) → view e key ≡ some page → flushed (view e key) ≡ evicted (view e key)
    same_effect page held = rw held refl

    flush_page-ne-not_found : (page : Page J P) → view e key ≡ some page → flush.2 ≢ not_found
    flush_page-ne-not_found page held =
        ground (arith, held, flush_page-Flushed.1, write_page-ne-not_found page)

    -- evictPage writes the cached page if it has changed, and nothing else to the files. Its status is the
    -- write's, and ok if there is nothing to write. On ok the key's page has left the cache, on a failure
    -- all cached pages are still there, and other keys' pages are there in either case.
    pub evict_page-Evicted : Evicted (StorageEngine.evict_page J P T S C e table_name id w)
    evict_page-Evicted =
        let (files, status, pages) = flush_page-Flushed in
        elim (Option-cases (view e key)) [
          | inl absent ↦
              let absent' : flush.2 ≡ not_found = ground (arith, status, absent) in
              subst Evicted (sym (evict_page-absent absent')) (
                ground (arith, absent, files),
                ground (arith, absent),
                λ j. ground (arith, absent, pages j, at_key j),
              )
          | inr (page, held) ↦ elim (Bool-cases (is_ok (flushed (view e key)).1)) [
            | inl stored ↦
                subst Evicted (sym (evict_page-flushed (status ∙ ok_of_is_ok _ stored))) (
                  ground (arith, held, files),
                  ground (arith, held, ok_of_is_ok _ stored),
                  λ j. ground (
                    arith,
                    held,
                    same_effect page held,
                    stored,
                    pages j,
                    peek-erase flush.0.page_cache key j,
                  ),
                )
            | inr broken ↦
                subst Evicted
                  (sym (
                    evict_page-failed (ap is_ok status ∙ broken)
                      (flush_page-ne-not_found page held)))
                  (
                    files ∙ ap (λ r. r.0) (same_effect page held),
                    status ∙ ap (λ r. r.1) (same_effect page held),
                    λ j. ground (arith, held, same_effect page held, broken, pages j),
                  )
          ]
        ]

    pub evict_page-data_directory :
        (StorageEngine.evict_page J P T S C e table_name id w).0.data_directory ≡ e.data_directory
    unfolding StorageEngine.evict_page StorageEngine.flush_page
    evict_page-data_directory = ground arith
