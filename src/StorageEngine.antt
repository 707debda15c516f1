-- ===== src/StorageEngine.antt =====
-- src/MiniDB/Engine/StorageEngine.cpp and include/MiniDB/Engine/StorageEngine.h: pages in slot files, behind a
-- cache. A `Page*` into the cache is the page that it points to; the engine's own writes through one go
-- to the cache's entry. Reading a file changes none.
pub mod Cache
pub mod Durability
pub mod Databases
use Prim.Native.String.{◌++◌ as str_append}
use mini_database.Prelude.{
  ℕ, Bool, true, false, not, Option, none, some, List, [], String, str_eq, if◌then◌else◌,
}
use mini_database.Common.{Status, ok, not_found, page_size, lru_cache_cap}
use mini_database.Packages.Json.{JsonLib}
use mini_database.Packages.Pool.{PoolLib}
use mini_database.Packages.LruCache.{LruCacheLib}
use mini_database.Packages.Text.{TextLib}
use mini_database.Packages.Posix.{Posix}
use mini_database.FileIo.{write_slot, read_slot}
use mini_database.Page
use mini_database.Page.{Page}

abbrev pub PageCache : JsonLib → PoolLib → Type 1
PageCache J P = LruCacheLib String (Page J P) str_eq

-- class StorageEngine
pub record StorageEngine (J : JsonLib) (P : PoolLib) (C : PageCache J P) : Type 0 where
  pub data_directory : String
  pub page_cache : LruCacheLib.Cache C

-- cacheKey
unfoldable pub cache_key : TextLib → String → ℕ → String
cache_key T table_name id = str_append table_name (str_append "#" (TextLib.to_string T id))

-- the payload of readPageFromDisk, empty before readSlot sets it
unfoldable pub or_empty : Option (List ℕ) → List ℕ
or_empty none = []
or_empty (some payload) = payload

module _ (J : JsonLib) (P : PoolLib) (T : TextLib) (S : Posix) (C : PageCache J P) where
  open C use {contains, get, put, store, erase}
  open S use {World}

  -- StorageEngine(dataDirectory)
  unfoldable pub make : String → StorageEngine J P C
  make data_directory = record {
    data_directory = data_directory;
    page_cache = LruCacheLib.make C lru_cache_cap;
  }

  -- pageFilePath
  unfoldable pub page_file_path : StorageEngine J P C → String → String
  page_file_path e table_name =
      str_append e.data_directory (str_append "/" (str_append table_name ".pages"))

  -- writePage
  unfoldable pub write_page : StorageEngine J P C → String → Page J P → World → World × Status
  unfolding page_file_path
  write_page e table_name page w =
      write_slot S (page_file_path e table_name) (Page.get_id J P page) page_size
        (TextLib.bytes_of T (Page.serialize J P page)) w

  -- readPageFromDisk: the page `out` and the status
  unfoldable pub read_page_from_disk :
      StorageEngine J P C → String → ℕ → Page J P → World → Page J P × Status
  unfolding page_file_path or_empty
  read_page_from_disk e table_name id out w =
      let (payload, s) = read_slot S (page_file_path e table_name) id page_size w in
      elim s [
        | ok ↦ Page.deserialize J P out (TextLib.text_of T (or_empty payload))
        | failed ↦ (out, failed)
      ]

  -- fetchPage
  unfoldable pub fetch_page :
      StorageEngine J P C → String → ℕ → World → StorageEngine J P C × Option (Page J P)
  unfolding cache_key read_page_from_disk
  fetch_page e table_name id w =
      let key = cache_key T table_name id in
      if contains e.page_cache key
      then (let (c, page) = get e.page_cache key in (record e { page_cache = c }, page))
      else let (loaded, s) = read_page_from_disk e table_name id (Page.make J P id) w in
        elim s [
          | ok ↦
              (let (c, page) = get (put e.page_cache key loaded) key in
                (record e { page_cache = c }, page))
          | failed ↦ (e, none)
        ]

  -- getCachedPage
  unfoldable pub get_cached_page :
      StorageEngine J P C → String → ℕ → StorageEngine J P C × Option (Page J P)
  unfolding cache_key
  get_cached_page e table_name id =
      let (c, page) = get e.page_cache (cache_key T table_name id) in
      (record e { page_cache = c }, page)

  -- cachePage
  unfoldable pub cache_page : StorageEngine J P C → String → Page J P → StorageEngine J P C
  unfolding cache_key
  cache_page e table_name page = record e {
    page_cache = put e.page_cache (cache_key T table_name (Page.get_id J P page)) page;
  }

  -- isCached
  unfoldable pub is_cached : StorageEngine J P C → String → ℕ → Bool
  unfolding cache_key
  is_cached e table_name id = contains e.page_cache (cache_key T table_name id)

  -- flushPage
  unfoldable pub flush_page :
      StorageEngine J P C → String → ℕ → World → StorageEngine J P C × World × Status
  unfolding cache_key write_page
  flush_page e table_name id w =
      let key = cache_key T table_name id in
      let (c, cached) = get e.page_cache key in
      elim cached [
        | none ↦ (record e { page_cache = c }, w, not_found)
        | some page ↦
            if not page.dirty
            then (record e { page_cache = c }, w, ok)
            else let (w', s) = write_page e table_name page w in
              elim s [
                | ok ↦
                    (record e { page_cache = store c key (record page { dirty = false }) }, w', ok)
                | failed ↦ (record e { page_cache = c }, w', failed)
              ]
      ]

  -- evictPage
  unfoldable pub evict_page :
      StorageEngine J P C → String → ℕ → World → StorageEngine J P C × World × Status
  unfolding flush_page cache_key
  evict_page e table_name id w =
      let (e', w', s) = flush_page e table_name id w in
      elim s [
        | not_found ↦ (e', w', ok)
        | ok ↦ (record e' { page_cache = erase e'.page_cache (cache_key T table_name id) }, w', ok)
        | failed ↦ (e', w', failed)
      ]

  -- cacheHits, cacheMisses
  unfoldable pub cache_hits : StorageEngine J P C → ℕ
  cache_hits e = LruCacheLib.hit_count C e.page_cache

  unfoldable pub cache_misses : StorageEngine J P C → ℕ
  cache_misses e = LruCacheLib.miss_count C e.page_cache
