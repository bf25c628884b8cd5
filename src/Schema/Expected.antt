-- ===== src/Schema/Expected.antt =====
-- What the decorators of an entity ask of its table, in the terms of PostgreSQL: the types and defaults
-- that TypeORM documents for them, and the names of the enum types.
use Prim.Native.String
use realtime_ops_platform.Prelude.{String, List, [], ◌∷◌, Bool, true, not, some, if◌then◌else◌}
use realtime_ops_platform.Schema.{
  ColumnType, Column, uuid, text, jsonb, integer, timestamptz, varchar, enum,
}
use realtime_ops_platform.Schema.Decorators.{
  Kind, Property, IndexOption, generated_id, created_date, updated_date, column,
}

-- the name of the enum type of a column
abbrev enum_name : String → String → String
enum_name table name = String.◌++◌ table (String.◌++◌ "_" (String.◌++◌ name "_enum"))

abbrev type_of : String → String → Kind → ColumnType
type_of table name Kind.uuid = uuid
type_of table name Kind.text = text
type_of table name Kind.jsonb = jsonb
type_of table name Kind.integer = integer
type_of table name Kind.timestamptz = timestamptz
type_of table name (Kind.varchar width) = varchar width
type_of table name (Kind.enum values) = enum (enum_name table name)

-- the column that a decorated property stands for
abbrev pub column_of : String → Property → Column
column_of table (generated_id name) = record {
  name = name;
  type = uuid;
  not_null = true;
  default = some "uuid_generate_v4()";
}
column_of table (created_date name) = record {
  name = name;
  type = timestamptz;
  not_null = true;
  default = some "now()";
}
column_of table (updated_date name) = record {
  name = name;
  type = timestamptz;
  not_null = true;
  default = some "now()";
}
column_of table (column name kind nullable is_unique default) = record {
  name = name;
  type = type_of table name kind;
  not_null = not nullable;
  default = default;
}

-- the enum types that the properties need
abbrev pub enums_of : String → List Property → List (String × List String)
enums_of table [] = []
enums_of table (column name (Kind.enum values) _ _ _ ∷ ps) =
    (enum_name table name, values) ∷ enums_of table ps
enums_of table (_ ∷ ps) = enums_of table ps

-- the columns that are to be unique: by their own decorators, or by those of the indexes
abbrev pub unique_properties : List Property → List (List String)
unique_properties [] = []
unique_properties (column name _ _ true _ ∷ ps) = (name ∷ []) ∷ unique_properties ps
unique_properties (_ ∷ ps) = unique_properties ps

abbrev pub indexes_of : Bool → List IndexOption → List (List String)
indexes_of is_unique [] = []
indexes_of is_unique (i ∷ is) =
    let rest = indexes_of is_unique is in
    if is_unique
    then (if i.unique then i.columns ∷ rest else rest)
    else (if i.unique then rest else i.columns ∷ rest)
