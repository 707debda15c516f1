-- ===== src/Lib.antt =====
-- MiniDB: an embedded database of tables of JSON records.
--
-- A record (Core/Record) is an id, a JSON object of fields and a deletion mark. A page (Core/Page) holds
-- at most 64 records, each constructed in a place of the page's memory pool. A table (Core/Table) is
-- a list of pages with two hash indexes, from record ids to page ids and from page ids to pages; it
-- validates records against its schema and passes the work on to the page that the indexes name.
-- The write-ahead log (Storage/WriteAheadLog) is a file of framed entries with checksums and, in
-- memory, the position of every frame; open() scans the file and cuts a torn tail off. A database
-- (Core/Database) owns tables, with hash indexes from names to ids and from ids to pointers. The query
-- engine (Engine/QueryEngine) scans a table's pages for records that satisfy predicates. The storage
-- engine (Engine/StorageEngine) keeps pages in slot files behind a cache. Concurrency
-- (Engine/Concurrency) runs one task per table on a thread pool. The serializer (Engine/Serializer)
-- exports tables to files and imports them. A slot file (Common/FileIO) is an array of slots of one
-- size, each with the length of what it holds.
--
-- Paths are those of the repository, src/MiniDB and include/MiniDB.
--   Common     include/MiniDB/Common/Type.h: the enumerations and constants
--   Record     Core/Record.cpp; Record/Fields, Record/Schema and Record/RoundTrip: field access,
--              validation, the JSON and text forms
--   Page       Core/Page.cpp; Page/Invariant: the pool and the record count; Page/Lookup: what a page
--              finds; Page/Effects: what an operation changes of it; Page/RoundTrip: its JSON form written
--              and read; Page/Lifetime: destructor and move operations
--   Table      Core/Table.cpp; Table/Invariant: the indexes say what the pages say; Table/Contract: the
--              table as a map from ids to records; Table/Inserts, Writes, Deletes, Reads, Maintenance,
--              Rebuilding: the operations against it; Table/Forms: the JSON and text forms, which
--              Table/Columns, Table/Loading and Table/RoundTrip write and read; Table/Lifetime:
--              destructor and move operations; Table/Abstract: tables up to their representation
--   Database   Core/Database.cpp; Database/Cells and Database/Removal: searching the vector of
--              tables; Database/Invariant: the indexes say what the vector says; Database/Frames:
--              changes inside tables; Database/Growth and Database/Tables: createTable, dropTable,
--              getTable; Database/Forms: the JSON form, save and load; Database/Loading: what
--              a load leaves; Database/Rebuilt and Database/RoundTrip: a database saved and loaded;
--              Database/Crash: a save that stops half-way
--   Query      Engine/QueryEngine.cpp: comparing, sorting and the loops; Query/Scans: the queries;
--              Query/Values: predicates; Query/Rows: the loops as one pass over the live records;
--              Query/Filtering, Query/Select, Query/Order, Query/Aggregates: what they answer
--   Wal        Storage/WriteAheadLog.cpp: frames, crc32, append and open; Wal/Reading: readFrameAt,
--              entryAt, range and truncateFrom; Wal/Lifetime: destructor and move operations;
--              Wal/Crash: open() after a crash in append; the other children: what these do with a
--              list of entries
--   FileIo     include/MiniDB/Common/FileIO.h: writeSlot and readSlot; FileIo/Whole: readFile and
--              writeFileAtomic; FileIo/Slots, FileIo/Atomic, FileIo/Succeeding, FileIo/Reads: what these
--              do to a file; FileIo/Steps, FileIo/Interleaved and FileIo/Crash: writeFileAtomic as
--              single calls, alone, among others, and stopped between two of them
--   Serializer  Engine/Serializer.cpp, one table: Serializer/Exports, Serializer/Imports and
--              Serializer/RoundTrip: what is written and read back; Serializer/Whole and
--              Serializer/Consistency: a database
--   StorageEngine  Engine/StorageEngine.cpp; StorageEngine/Cache: flushPage and evictPage against a map
--              from keys to pages; StorageEngine/Durability: a page evicted and fetched again;
--              StorageEngine/Databases: saveDatabase and loadDatabase
--   Concurrency  Engine/Concurrency.cpp as a step relation of the caller and the tasks;
--              Concurrency/Results: what runParallel returns; Concurrency/Progress: that it ends;
--              Concurrency/Saves: the calls that write files, one system call at a time, with
--              Concurrency/Saving, Saved, Ending and Parallel: what they leave and that they end
--   Packages   what the code uses and does not contain, as records of operations and laws: the JSON
--              package, the memory pool, the hash map, the LRU cache, std::sort, std::string, and the
--              system calls on files
--   Witness    small implementations of the packages, and the results at concrete inputs
--
-- A function has the source's name in snake case (addRecord is add_record). A method that changes its
-- object takes it and returns it with the status; a pointer into a list is a position; `none` stands
-- for an exception or an access out of bounds where the type says so. Unsigned counters wrap as
-- written (`% 2 ^ 32`). Sizes and file positions are natural numbers.
--
-- The loops over files take rounds: the write loop the buffer's length, because every round writes a
-- byte, the read loop of a slot the slot's size for the same reason, and the recovery scan the file's
-- size and one, because every frame has bytes. Running out of rounds has an outcome of its own.
--
-- Not modelled: loadAllTablesParallel of Engine/Concurrency, whose tasks change tables and can throw
-- half-way; the branches of Common/FileIO for other systems than POSIX; the platform layer of the log,
-- which is the operating system's; the thread pool's counters; the tests, the examples, the benchmarks
-- and the regression suite, which are not the database.
pub mod Common
pub mod Concurrency
pub mod Database
pub mod FileIo
pub mod Packages
pub mod Page
pub mod Prelude
pub mod Query
pub mod Record
pub mod Serializer
pub mod StorageEngine
pub mod Table
pub mod Wal
pub mod Witness
