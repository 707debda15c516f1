-- ===== src/Witness/Storage.antt =====
-- The theorems about the page cache at a changed page with one record.
use mini_database.Prelude.{
  ◌≡◌, refl, true, false, none, some, str_eq, [], ◌∷◌, arith, if◌then◌else◌,
}
use mini_database.Common.{ok}
use mini_database.Packages.Json.{JsonLib, pos}
use mini_database.Record
use mini_database.Page
use mini_database.Page.{Page, Cell}
use mini_database.Wal.{write_loop}
use mini_database.Wal.Bytes.{le_bytes}
use mini_database.FileIo.{write_slot, slot_buffer, zeros}
use mini_database.StorageEngine
use mini_database.StorageEngine.{StorageEngine, PageCache, cache_key}
use mini_database.StorageEngine.Cache.{view, Evicted, evict_page-Evicted}
use mini_database.StorageEngine.Durability.{evicted, fetch_page-evict_page}
use mini_database.Witness.ToyJson.{toy_json, obj, field, end, num, bool, arr, cons, nil}
use mini_database.Witness.ToyCache.{toy_cache, toy_text}
use mini_database.Witness.ToyPosix.{toy_posix, toy_reads}
use mini_database.Witness.Pages.{P}

-- a parser that reads back the text of the page
abbrev K : JsonLib
K = toy_json (
    some (
      obj (
        field "__page_id__" (num (pos 0)) (
          field "records"
            (arr (
              cons
                (obj (
                  field "__id__" (num (pos 7)) (
                    field "__deleted__" (bool false)
                      (field "data" (obj (field "age" (num (pos 36)) end)) end))))
                nil))
            end))))

abbrev C : PageCache K P
C = toy_cache (Page K P)

abbrev kept : Cell K P
kept = record {
  slot = tt;
  value = record { id = 7; fields = obj (field "age" (num (pos 36)) end); deleted = false };
}

abbrev page : Page K P
page = record {
  id = 0;
  dirty = true;
  records = kept ∷ [];
  pool = record { capacity = 64; used = 1 };
}

abbrev engine : StorageEngine K P C
engine = record {
  data_directory = "data";
  page_cache = λ k. if str_eq "people#0" k then some page else none;
}

evict_page-Evicted_example :
    Evicted K P toy_text toy_posix C engine "people" 0 []
      (StorageEngine.evict_page K P toy_text toy_posix C engine "people" 0 [])
evict_page-Evicted_example = evict_page-Evicted K P toy_text toy_posix C engine "people" 0 []

finished : (evicted K P toy_text toy_posix C engine "people" [] page).2 ≡ ok
unfolding StorageEngine.evict_page StorageEngine.flush_page StorageEngine.write_page write_slot
    write_loop slot_buffer zeros le_bytes Page.serialize
finished = refl

readable :
    Page.deserialize K P (Page.make K P 0) (Page.serialize K P page)
    ≡ (record page { dirty = false }, ok)
unfolding Page.deserialize Page.serialize Page.from_json Page.load_records Page.make
    Record.from_json
readable = refl

held : view K P toy_text toy_posix C engine (cache_key toy_text "people" 0) ≡ some page
unfolding cache_key
held = refl

fetch_page-evict_page_example :
    (StorageEngine.fetch_page K P toy_text toy_posix C
      (evicted K P toy_text toy_posix C engine "people" [] page).0
      "people"
      0
      (evicted K P toy_text toy_posix C engine "people" [] page).1).1
    ≡ some (record page { dirty = false })
unfolding Page.serialize
fetch_page-evict_page_example =
    fetch_page-evict_page K P toy_text toy_posix C engine "people" [] page []
      (evicted K P toy_text toy_posix C engine "people" [] page).1 3 3
      (record page { dirty = false }) held refl finished refl (omega arith) (omega arith) refl refl
      (toy_reads (evicted K P toy_text toy_posix C engine "people" [] page).1) readable
