-- ===== src/Schema/Widths.antt =====
-- The widths of the columns of the migration, and the titles that the services compose.
use Prim.Native.String
use realtime_ops_platform.Prelude.{
  ℕ, ◌≤◌, String, List, [], ◌∷◌, ◌≡◌, refl, Option, none, some, str_eq, if◌then◌else◌, arith,
}
use text.Mathlib.TextLemmas.{length-append}
use realtime_ops_platform.Core.Enums.{AlertSeverity}
use realtime_ops_platform.Core.Entities.{JobEntity, AlertEntity}
use realtime_ops_platform.Jobs.Rows.{failure_alert, failure_incident}
use realtime_ops_platform.Alerts.{alert_incident}
use realtime_ops_platform.Schema.{ColumnType, Column, Ddl, varchar, create_table}
use realtime_ops_platform.Schema.Up.{up}

abbrev width_of_type : ColumnType → Option ℕ
width_of_type (varchar width) = some width
width_of_type _ = none

abbrev width_of_column : String → List Column → Option ℕ
width_of_column name [] = none
width_of_column name (c ∷ cs) =
    let rest = width_of_column name cs in if str_eq c.name name then width_of_type c.type else rest

-- the width of a text column of a table, where it has one
abbrev width : String → String → List Ddl → Option ℕ
width table name [] = none
width table name (create_table t columns constraints ∷ ds) =
    let rest = width table name ds in if str_eq t table then width_of_column name columns else rest
width table name (_ ∷ ds) = width table name ds

-- the column has a width, and the text is no longer: PostgreSQL stores it as it is
abbrev pub Fits : String → String → String → Type 0
Fits table name s = (w : ℕ) × (width table name up ≡ some w) × (String.count s ≤ w)

-- A job whose name fits its own column gives the alert and the incident of a failed attempt titles
-- that fit theirs, whatever the severity and the message; and an alert whose title fits gives a
-- fitting title to the incident that is opened with it.
pub titles_fit :
    (job : JobEntity) (alert : AlertEntity) (severity : AlertSeverity) (message : String)
    → Fits "jobs" "name" job.name
    → Fits "alerts" "title" alert.title
    → Fits "alerts" "title" (failure_alert job severity message).title
      × Fits "incidents" "title" (failure_incident job alert message).title
      × Fits "incidents" "title" (alert_incident alert).title
titles_fit job alert severity message (w, e, le) (v, f, lf) =
    let name : String.count job.name ≤ 80 = ground (arith, e, le) in
    let title : String.count alert.title ≤ 120 = ground (arith, f, lf) in
    (
      (120, refl, rw (length-append "Job processing failed: " job.name) (omega (arith, name))),
      (140, refl, rw (length-append "Critical incident for job " job.name) (omega (arith, name))),
      (140, refl, rw (length-append "Incident: " alert.title) (omega (arith, title))),
    )
