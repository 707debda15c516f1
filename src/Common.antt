-- ===== src/Common.antt =====
-- include/MiniDB/Common/Type.h: the shared enums, identifiers and limits.
use mini_database.Prelude.{ℕ, ◌-◌, ◌^◌, ◌==◌, Bool, String, if◌then◌else◌}
use mini_database.Packages.Json.{ℤ, pos, negsuc}

-- enum class ColumnType, whose values are those of an int; `unnamed` is one that no enumerator has
pub data ColumnType : Type 0 where
  int double string bool : ColumnType
  unnamed : ℤ → ColumnType

-- static_cast<int> on a ColumnType, and static_cast<ColumnType> on an int
unfoldable pub int_of_type : ColumnType → ℤ
int_of_type int = pos 0
int_of_type double = pos 1
int_of_type string = pos 2
int_of_type bool = pos 3
int_of_type (unnamed z) = z

unfoldable pub type_of_int : ℤ → ColumnType
type_of_int (pos n) =
    if n == 0
    then int
    else if n == 1
    then double
    else if n == 2
    then string
    else if n == 3
    then bool
    else unnamed (pos n)
type_of_int (negsuc n) = unnamed (negsuc n)

-- enum class Op
pub data Op : Type 0 where
  eq neq gt gte lt lte : Op

-- enum class SortOrder
pub data SortOrder : Type 0 where
  asc desc : SortOrder

-- enum class Status; UPPER_CASE in the source
pub data Status : Type 0 where
  ok not_found duplicate_key invalid_schema invalid_type table_not_found : Status
  table_already_exists io_error parse_error out_of_memory unknown_error : Status

-- DBConstants
abbrev pub page_size : ℕ
page_size = 4096

abbrev pub max_records_page : ℕ
max_records_page = 64

abbrev pub lru_cache_cap : ℕ
lru_cache_cap = 128

abbrev pub max_tables : ℕ
max_tables = 256

abbrev pub invalid_record_id : ℕ
invalid_record_id = 2 ^ 64 - 1

abbrev pub invalid_page_id : ℕ
invalid_page_id = 2 ^ 32 - 1

abbrev pub invalid_table_id : ℕ
invalid_table_id = 2 ^ 32 - 1

-- struct ColumnDef
pub record ColumnDef : Type 0 where
  pub name : String
  pub type : ColumnType
  pub nullable : Bool

-- statusToString
unfoldable pub status_to_string : Status → String
status_to_string Status.ok = "OK"
status_to_string not_found = "NOT_FOUND"
status_to_string duplicate_key = "DUPLICATE_KEY"
status_to_string invalid_schema = "INVALID_SCHEMA"
status_to_string invalid_type = "INVALID_TYPE"
status_to_string table_not_found = "TABLE_NOT_FOUND"
status_to_string table_already_exists = "TABLE_ALREADY_EXISTS"
status_to_string io_error = "IO_ERROR"
status_to_string parse_error = "PARSE_ERROR"
status_to_string out_of_memory = "OUT_OF_MEMORY"
status_to_string unknown_error = "UNKNOWN_ERROR"
