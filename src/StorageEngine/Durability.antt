-- ===== src/StorageEngine/Durability.antt =====
-- Engine/StorageEngine.cpp: a page that is evicted and fetched again.
use Prim.Native.String.{◌++◌ as str_append}
use mini_database.Prelude.{
  ℕ, ◌+◌, ◌*◌, ◌≤◌, ◌<◌, ◌≡◌, refl, ap, ap₂, sym, ◌∙◌, true, none, some, List, String, str_eq,
  str_eq_iff, arith, length,
}
use mini_database.Common.{Status, ok, page_size}
use mini_database.Packages.Json.{JsonLib}
use mini_database.Packages.Pool.{PoolLib}
use mini_database.Packages.Text.{TextLib}
use mini_database.Packages.Posix.{Posix, ReadsWhole}
use mini_database.FileIo.{write_slot, read_slot}
use mini_database.FileIo.Slots.{read_slot-write_slot}
use mini_database.Page
use mini_database.Page.{Page}
use mini_database.StorageEngine
use mini_database.StorageEngine.{StorageEngine, PageCache, cache_key, or_empty, page_file_path}
use mini_database.StorageEngine.Cache.{view, evict_page-Evicted, evict_page-data_directory}

write_slot-fits :
    (S : Posix) (path : String) (slot_index size : ℕ) (payload : List ℕ) (w : Posix.World S)
    → (write_slot S path slot_index size payload w).1 ≡ ok
    → length payload + 4 ≤ size
unfolding write_slot
write_slot-fits S path slot_index size payload w stored = ground (arith, stored)

module _ (J : JsonLib) (P : PoolLib) (T : TextLib) (S : Posix) (C : PageCache J P)
    (e : StorageEngine J P C) (table_name : String) (w : Posix.World S) (page : Page J P) where
  open C use {peek, contains-peek, get-peek, peek-put}
  open S use {World, bytes, open_file, open_read}

  abbrev pub path : String
  path = page_file_path J P T S C e table_name

  abbrev pub written : World × Status
  written = StorageEngine.write_page J P T S C e table_name page w

  abbrev pub text : List ℕ
  text = TextLib.bytes_of T (Page.serialize J P page)

  read_page_from_disk-got :
      (e' : StorageEngine J P C) (out : Page J P) (w' : World)
      → read_slot S (page_file_path J P T S C e' table_name) page.id page_size w' ≡ (some text, ok)
      → StorageEngine.read_page_from_disk J P T S C e' table_name page.id out w'
        ≡ Page.deserialize J P out (Page.serialize J P page)
  unfolding StorageEngine.read_page_from_disk or_empty
  read_page_from_disk-got e' out w' slot =
      ground (arith, slot, TextLib.text_of-bytes_of T (Page.serialize J P page))

  -- readSlot behind writePage
  read_slot-write_page :
      (w1 w3 : World) (fd fd' : ℕ)
      → open_file path w ≡ (some fd, w1)
      → page.id * page_size ≤ length (bytes w1 fd)
      → written.1 ≡ ok
      → 0 < length text
      → open_read path written.0 ≡ (some fd', w3)
      → bytes w3 fd' ≡ bytes written.0 fd
      → ReadsWhole S w3 fd'
      → read_slot S path page.id page_size written.0 ≡ (some text, ok)
  unfolding StorageEngine.write_page Page.get_id
  read_slot-write_page w1 w3 fd fd' opened near stored some_byte reopened same reads =
      read_slot-write_slot S path page.id page_size text w w1 fd opened
        (write_slot-fits S path page.id page_size text w stored) (omega arith) near w3 fd' stored
        some_byte reopened same reads

  fetch_page-loaded :
      (e' : StorageEngine J P C) (id : ℕ) (w' : World) (loaded : Page J P)
      → view J P T S C e' (cache_key T table_name id) ≡ none
      → StorageEngine.read_page_from_disk J P T S C e' table_name id (Page.make J P id) w'
        ≡ (loaded, ok)
      → (StorageEngine.fetch_page J P T S C e' table_name id w').1 ≡ some loaded
  unfolding StorageEngine.fetch_page
  fetch_page-loaded e' id w' loaded absent read =
      let k : String = cache_key T table_name id in
      let same : str_eq k k ≡ true = (str_eq_iff k k).1 refl in
      ground (
        arith,
        absent,
        read,
        contains-peek e'.page_cache k,
        get-peek (C.put e'.page_cache k loaded) k,
        peek-put e'.page_cache k k loaded same,
      )

  abbrev pub evicted : StorageEngine J P C × World × Status
  evicted = StorageEngine.evict_page J P T S C e table_name page.id w

  same_path : page_file_path J P T S C evicted.0 table_name ≡ path
  unfolding page_file_path
  same_path =
      ap (λ d. str_append d (str_append "/" (str_append table_name ".pages")))
        (evict_page-data_directory J P T S C e table_name page.id w)

  -- A changed page, cached under its own id, that evictPage has answered ok for is not lost: fetchPage
  -- finds it again, as its text is read back. The conditions are that the text is not empty and is
  -- read back with ok, and that the page file opens, reaches up to the slot, shows again what was
  -- written, and reads of it succeed.
  pub fetch_page-evict_page :
      (w1 w3 : World) (fd fd' : ℕ) (loaded : Page J P)
      → view J P T S C e (cache_key T table_name page.id) ≡ some page
      → page.dirty ≡ true
      → evicted.2 ≡ ok
      → open_file path w ≡ (some fd, w1)
      → page.id * page_size ≤ length (bytes w1 fd)
      → 0 < length text
      → open_read path evicted.1 ≡ (some fd', w3)
      → bytes w3 fd' ≡ bytes evicted.1 fd
      → ReadsWhole S w3 fd'
      → Page.deserialize J P (Page.make J P page.id) (Page.serialize J P page) ≡ (loaded, ok)
      → (StorageEngine.fetch_page J P T S C evicted.0 table_name page.id evicted.1).1 ≡ some loaded
  fetch_page-evict_page w1 w3 fd fd' loaded held changed finished opened near some_byte reopened
        same reads readable =
      fetch_page-loaded evicted.0 page.id evicted.1 loaded gone
        (read_page_from_disk-got evicted.0 (Page.make J P page.id) evicted.1 slot ∙ readable)
    where
      effect : evicted.1 ≡ written.0
      effect =
          ground (arith, held, changed, (evict_page-Evicted J P T S C e table_name page.id w).0)

      status : written.1 ≡ ok
      status =
          ground (
            arith,
            held,
            changed,
            finished,
            (evict_page-Evicted J P T S C e table_name page.id w).1,
          )

      gone : view J P T S C evicted.0 (cache_key T table_name page.id) ≡ none
      gone = ground (
        arith,
        held,
        changed,
        status,
        (str_eq_iff (cache_key T table_name page.id) (cache_key T table_name page.id)).1 refl,
        (evict_page-Evicted J P T S C e table_name page.id w).2 (cache_key T table_name page.id),
      )

      slot :
          read_slot S (page_file_path J P T S C evicted.0 table_name) page.id page_size evicted.1
          ≡ (some text, ok)
      slot =
          ap₂ (λ p w'. read_slot S p page.id page_size w') same_path effect
          ∙ read_slot-write_page w1 w3 fd fd' opened near status some_byte
              (ap (open_read path) (sym effect) ∙ reopened) (same ∙ ap (λ w'. bytes w' fd) effect)
              reads
