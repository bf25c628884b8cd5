-- ===== src/Schema/Agreement.antt =====
-- That the tables of the migration are those that the entities describe.
use realtime_ops_platform.Prelude.{
  String, List, [], ◌∷◌, ◌++◌, ◌≡◌, refl, true, false, Option, none, some, map, str_eq,
  if◌then◌else◌,
}
use realtime_ops_platform.Schema.{
  Column, TableConstraint, Ddl, primary_key, unique, create_type, create_table, create_index,
  add_foreign_key,
}
use realtime_ops_platform.Schema.Decorators.{Entity, Relation}
use realtime_ops_platform.Schema.Entities.{
  EntityName, entity, job, processing_attempt, alert, incident, notification, operator_action,
  audit_entry,
}
use realtime_ops_platform.Schema.Up.{up}
use realtime_ops_platform.Schema.Expected.{column_of, enums_of, unique_properties, indexes_of}

-- What the statements say of one table.
abbrev created_columns : String → List Ddl → List (List Column)
created_columns table [] = []
created_columns table (create_table name columns constraints ∷ ds) =
    let rest = created_columns table ds in if str_eq name table then columns ∷ rest else rest
created_columns table (_ ∷ ds) = created_columns table ds

abbrev unique_constraints : List TableConstraint → List (List String)
unique_constraints [] = []
unique_constraints (unique name columns ∷ ks) = columns ∷ unique_constraints ks
unique_constraints (primary_key name columns ∷ ks) = unique_constraints ks

abbrev primary_keys : List TableConstraint → List (List String)
primary_keys [] = []
primary_keys (primary_key name columns ∷ ks) = columns ∷ primary_keys ks
primary_keys (unique name columns ∷ ks) = primary_keys ks

abbrev constraints_of : String → List Ddl → List TableConstraint
constraints_of table [] = []
constraints_of table (create_table name columns constraints ∷ ds) =
    let rest = constraints_of table ds in if str_eq name table then constraints ++ rest else rest
constraints_of table (_ ∷ ds) = constraints_of table ds

abbrev created_indexes : String → List Ddl → List (List String)
created_indexes table [] = []
created_indexes table (create_index name on columns ∷ ds) =
    let rest = created_indexes table ds in if str_eq on table then columns ∷ rest else rest
created_indexes table (_ ∷ ds) = created_indexes table ds

abbrev created_relations : String → List Ddl → List Relation
created_relations table [] = []
created_relations table (add_foreign_key on key ∷ ds) =
    let rest = created_relations table ds in
    if str_eq on table
    then record { column = key.column; references = key.references; on_delete = key.on_delete }
      ∷ rest
    else rest
created_relations table (_ ∷ ds) = created_relations table ds

-- the values of the type of a name
abbrev values_of : String → List Ddl → Option (List String)
values_of name [] = none
values_of name (create_type type values ∷ ds) =
    let rest = values_of name ds in if str_eq type name then some values else rest
values_of name (_ ∷ ds) = values_of name ds

abbrev created_tables : List Ddl → List String
created_tables [] = []
created_tables (create_table name columns constraints ∷ ds) = name ∷ created_tables ds
created_tables (_ ∷ ds) = created_tables ds

-- The statements create the table of the entity, and all that its decorators ask of it.
pub record Agrees (ds : List Ddl) (e : Entity) : Type 0 where
  pub columns : created_columns e.table ds ≡ map (column_of e.table) e.properties ∷ []
  pub enums :
      map (λ p. values_of p.0 ds) (enums_of e.table e.properties)
      ≡ map (λ p. some p.1) (enums_of e.table e.properties)
  pub keys : primary_keys (constraints_of e.table ds) ≡ ("id" ∷ []) ∷ []
  pub uniques :
      unique_constraints (constraints_of e.table ds)
      ≡ unique_properties e.properties ++ indexes_of true e.indexes
  pub indexes : created_indexes e.table ds ≡ indexes_of false e.indexes
  pub relations : created_relations e.table ds ≡ e.relations

-- For every entity, the migration creates one table of its name, with the columns of its properties,
-- each of the type, the width, the default and the nullability that the decorators give it, the values
-- of its enums, the primary key `id`, and its unique constraints, indexes and foreign keys.
pub schema-Agrees : (name : EntityName) → Agrees up (entity name)
schema-Agrees job = record {
  columns = refl;
  enums = refl;
  keys = refl;
  uniques = refl;
  indexes = refl;
  relations = refl;
}
schema-Agrees processing_attempt = record {
  columns = refl;
  enums = refl;
  keys = refl;
  uniques = refl;
  indexes = refl;
  relations = refl;
}
schema-Agrees alert = record {
  columns = refl;
  enums = refl;
  keys = refl;
  uniques = refl;
  indexes = refl;
  relations = refl;
}
schema-Agrees incident = record {
  columns = refl;
  enums = refl;
  keys = refl;
  uniques = refl;
  indexes = refl;
  relations = refl;
}
schema-Agrees notification = record {
  columns = refl;
  enums = refl;
  keys = refl;
  uniques = refl;
  indexes = refl;
  relations = refl;
}
schema-Agrees operator_action = record {
  columns = refl;
  enums = refl;
  keys = refl;
  uniques = refl;
  indexes = refl;
  relations = refl;
}
schema-Agrees audit_entry = record {
  columns = refl;
  enums = refl;
  keys = refl;
  uniques = refl;
  indexes = refl;
  relations = refl;
}
