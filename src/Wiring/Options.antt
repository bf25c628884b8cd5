-- ===== src/Wiring/Options.antt =====
-- The connection to the database: libs/database/src/typeorm.config.ts and data-source.ts. What the
-- ConfigService, or `process.env`, has for `DATABASE_URL` is an argument.
use realtime_ops_platform.Prelude.{
  String, List, [], ◌∷◌, ◌≡◌, ◌≢◌, refl, ap, Bool, true, false, Option, none, some, str_eq, arith,
  if◌then◌else◌, eq_iff, ◌⊎◌, inl, inr, Bool-cases,
}
use realtime_ops_platform.Runtime.Monad.{Outcome, ok, err, plain_error}
use realtime_ops_platform.Schema.Entities.{EntityName}
use realtime_ops_platform.Schema.Entities.EntityName.{
  job, processing_attempt, alert, incident, notification, operator_action, audit_entry,
}
use realtime_ops_platform.Wiring.Gather.{gather, Within, every, every-Mem, has, has-Mem}
use realtime_ops_platform.Wiring.Modules.{ModuleName, Import, type_orm_for_feature, module_of}

pub record DataSourceOptions : Type 0 where
  pub type : String
  pub url : String
  pub entities : List EntityName
  pub migrations : List String
  pub synchronize : Bool
  pub logging : Bool

abbrev pub entities : List EntityName
entities =
    job ∷ processing_attempt ∷ alert ∷ incident ∷ notification ∷ operator_action ∷ audit_entry ∷ []

abbrev pub build_type_orm_options : String → DataSourceOptions
build_type_orm_options database_url = record {
  type = "postgres";
  url = database_url;
  entities = entities;
  migrations = "InitialSchema1710000000000" ∷ [];
  synchronize = false;
  logging = false;
}

-- `if (!databaseUrl) { throw … }`, in getTypeOrmOptionsFromConfig
unfoldable pub get_type_orm_options_from_config : Option String → Outcome DataSourceOptions
get_type_orm_options_from_config none = err (plain_error "DATABASE_URL is required")
get_type_orm_options_from_config (some database_url) =
    if str_eq database_url ""
    then err (plain_error "DATABASE_URL is required")
    else ok (build_type_orm_options database_url)

-- the options of `AppDataSource`
unfoldable pub app_data_source : Option String → Outcome DataSourceOptions
app_data_source none = err (plain_error "DATABASE_URL is required")
app_data_source (some database_url) =
    if str_eq database_url ""
    then err (plain_error "DATABASE_URL is required")
    else ok (build_type_orm_options database_url)

-- the entities whose repositories an import makes known
abbrev pub featured : Import → List EntityName
featured (type_orm_for_feature es) = es
featured _ = []

EntityName-discrete : Discrete EntityName
EntityName-discrete = hlevel

entities_featured :
    (m : ModuleName)
    → every (has EntityName-discrete entities) (gather featured (module_of m).imports) ≡ true
unfolding every EntityName-discrete
entities_featured ModuleName.application = refl
entities_featured m = refl

featured-known : (m : ModuleName) → Within (gather featured (module_of m).imports) entities
featured-known m e i = has-Mem EntityName-discrete entities e (
    every-Mem (has EntityName-discrete entities) (gather featured (module_of m).imports)
      (entities_featured m) e i)

given-nonempty : (url : String) → str_eq url "" ≡ false → url ≢ ""
given-nonempty url given e = absurd (ground (arith, given, (eq_iff url "").1 e))

-- Whether the URL of the database is read from the ConfigService, as the applications do, or from the
-- environment, as the scripts do: without one, or with an empty one, both throw; with any other, both
-- connect to it with the same options, which know the entity of every repository that a module makes
-- known, and leave changes of the schema to the migrations.
pub options_agree :
    (url : Option String)
    → (get_type_orm_options_from_config url ≡ app_data_source url)
      × (((url ≡ none) ⊎ (url ≡ some ""))
            × (app_data_source url ≡ err (plain_error "DATABASE_URL is required"))
          ⊎ ((options : DataSourceOptions) × (app_data_source url ≡ ok options)
              × (url ≡ some options.url)
              × (options.url ≢ "")
              × (options.synchronize ≡ false)
              × ((m : ModuleName)
                  → Within (gather featured (module_of m).imports) options.entities)))
unfolding get_type_orm_options_from_config app_data_source
options_agree none = (refl, inl (inl refl, refl))
options_agree (some url) = elim (Bool-cases (str_eq url "")) [
  | inl empty ↦ (refl, inl (inr (ap some ((eq_iff url "").0 empty)), rw empty))
  | inr given ↦ (
    refl,
    inr (
      build_type_orm_options url,
      rw given,
      refl,
      given-nonempty url given,
      refl,
      λ m e i. featured-known m e i,
    ),
  )
]
