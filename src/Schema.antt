-- ===== src/Schema.antt =====
-- libs/database/src/migrations/1710000000000-initial-schema.ts: the statements of `up` and `down`, in
-- the order of their queries. A statement is kept as what it says, and a name without its quotes and
-- its schema `public`.
pub mod Tables
pub mod Records
pub mod Up
pub mod Dropping
pub mod Decorators
pub mod Entities
pub mod Reversal
pub mod Expected
pub mod Agreement
pub mod Widths
use realtime_ops_platform.Prelude.{ℕ, String, List, [], ◌∷◌, ◌++◌, Bool, Option}

pub data ColumnType : Type 0 where
  uuid text jsonb integer timestamptz : ColumnType
  varchar : ℕ → ColumnType
  enum : String → ColumnType

pub record Column : Type 0 where
  pub name : String
  pub type : ColumnType
  pub not_null : Bool
  pub default : Option String

pub data TableConstraint : Type 0 where
  primary_key unique : String → List String → TableConstraint

pub data OnDelete : Type 0 where
  cascade set_null : OnDelete

pub record ForeignKey : Type 0 where
  pub name : String
  pub column : String
  pub references : String
  pub on_delete : OnDelete

pub data Ddl : Type 0 where
  create_extension : String → Ddl
  create_type : String → List String → Ddl
  create_table : String → List Column → List TableConstraint → Ddl
  create_index : String → String → List String → Ddl
  add_foreign_key : String → ForeignKey → Ddl
  drop_constraint : String → String → Ddl
  drop_index drop_table drop_type : String → Ddl
