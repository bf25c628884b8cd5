-- ===== src/Wiring/Resolution.antt =====
-- What a constructor finds: the scope that NestJS gives each module, and that every class of the three
-- applications gets what it asks for.
use realtime_ops_platform.Prelude.{
  List, [], ◌∷◌, ◌++◌, map, Bool, true, ◌&&◌, ◌≡◌, refl, if◌then◌else◌, arith,
}
use mathlib.Core.List.{Mem}
use realtime_ops_platform.Wiring.Gather.{
  gather, Within, append-Within, gather-Within, every, every-Mem, has, has-Mem,
}
use realtime_ops_platform.Wiring.Classes.{
  Class, Token, class, repository, config_service, reflector, data_source, needs,
}
use realtime_ops_platform.Wiring.Modules.{
  ModuleName, api_gateway, processing_service, realtime_gateway, Import, own, config_for_root,
  config_module, type_orm_for_root, type_orm_for_feature, module_of,
}

-- What NestJS and the modules of libraries add: what a module that imports one finds, what every module
-- of the application finds, and what is there without an import.
pub record Nest : Type 0 where
  pub imported : Import → List Token
  pub everywhere : Import → List Token
  pub core : List Token

-- What their documentation says: `ConfigModule` exports `ConfigService`, everywhere if `isGlobal` is set;
-- `forRoot` of TypeORM makes the `DataSource` known everywhere, and `forFeature` exports the repositories
-- of its entities; `Reflector` is there without an import.
abbrev pub documented : Nest
documented = record {
  imported = λ i. elim i [
    | own m ↦ []
    | config_for_root ↦ config_service ∷ []
    | config_module ↦ config_service ∷ []
    | type_orm_for_root injected ↦ []
    | type_orm_for_feature entities ↦ map repository entities
  ];
  everywhere = λ i. elim i [
    | config_for_root ↦ config_service ∷ []
    | type_orm_for_root injected ↦ data_source ∷ []
    | _ ↦ []
  ];
  core = reflector ∷ [];
}

-- all that is documented is there
pub record Provides (nest : Nest) : Type 0 where
  pub imported : (i : Import) → Within (documented.imported i) (nest.imported i)
  pub everywhere : (i : Import) → Within (documented.everywhere i) (nest.everywhere i)
  pub core : Within documented.core nest.core

abbrev pub imported_modules : List Import → List ModuleName
imported_modules [] = []
imported_modules (own m ∷ imports) = m ∷ imported_modules imports
imported_modules (_ ∷ imports) = imported_modules imports

-- The modules of an application, from its root: no module of libs imports another.
abbrev pub modules_from : ModuleName → List ModuleName
modules_from root = root ∷ imported_modules (module_of root).imports

-- The classes that a module creates.
abbrev pub created : ModuleName → List Class
created m = (module_of m).providers ++ (module_of m).controllers ++ (module_of m).app_guards

-- what the factories of a module's imports ask for
abbrev pub injected : Import → List Token
injected (type_orm_for_root tokens) = tokens
injected _ = []

abbrev pub asked : ModuleName → List Token
asked m = gather needs (created m) ++ gather injected (module_of m).imports

module _ (nest : Nest) where
  abbrev from_import : Import → List Token
  from_import (own m) = map class (module_of m).exports
  from_import i = nest.imported i

  abbrev from_anywhere : ModuleName → List Token
  from_anywhere m =
      (if (module_of m).is_global then map class (module_of m).exports else [])
      ++ gather nest.everywhere (module_of m).imports

  -- What is in scope for the classes of a module of an application: its providers, what its imports
  -- export, what is global in the application, and what NestJS has itself.
  abbrev pub scope : ModuleName → ModuleName → List Token
  scope root m =
      map class (module_of m).providers
      ++ (gather from_import (module_of m).imports
          ++ (gather from_anywhere (modules_from root) ++ nest.core))

module _ (nest : Nest) (p : Provides nest) where
  from_import-Within : (i : Import) → Within (from_import documented i) (from_import nest i)
  from_import-Within (own m) = λ x e. e
  from_import-Within config_for_root = p.imported config_for_root
  from_import-Within config_module = p.imported config_module
  from_import-Within (type_orm_for_root tokens) = p.imported (type_orm_for_root tokens)
  from_import-Within (type_orm_for_feature entities) = p.imported (type_orm_for_feature entities)

  from_anywhere-Within :
      (m : ModuleName) → Within (from_anywhere documented m) (from_anywhere nest m)
  from_anywhere-Within m =
      append-Within _ _ _ _ (λ x e. e)
        (gather-Within documented.everywhere nest.everywhere (module_of m).imports p.everywhere)

  scope-Within : (root m : ModuleName) → Within (scope documented root m) (scope nest root m)
  scope-Within root m =
      append-Within _ _ _ _ (λ x e. e)
        (append-Within _ _ _ _
          (gather-Within (from_import documented) (from_import nest) (module_of m).imports
            from_import-Within)
          (append-Within _ _ _ _
            (gather-Within (from_anywhere documented) (from_anywhere nest) (modules_from root)
              from_anywhere-Within)
            p.core))

Token-discrete : Discrete Token
Token-discrete = hlevel

ModuleName-discrete : Discrete ModuleName
ModuleName-discrete = hlevel

-- the modules that are run on their own
abbrev pub applications : List ModuleName
applications = api_gateway ∷ processing_service ∷ realtime_gateway ∷ []

serves : ModuleName → ModuleName → Bool
serves root m =
    every (has Token-discrete (scope documented root m)) (asked m)
    && every (has ModuleName-discrete (modules_from root)) (imported_modules (module_of m).imports)

applications_served : every (λ root. every (serves root) (modules_from root)) applications ≡ true
unfolding every serves Token-discrete ModuleName-discrete
applications_served = refl

served :
    (root m : ModuleName) → Mem root applications → Mem m (modules_from root) → serves root m ≡ true
served root m r i =
    every-Mem (serves root) (modules_from root)
      (every-Mem (λ a. every (serves a) (modules_from a)) applications applications_served root r) m
      i

-- In each of the three applications, everything that a constructor or a factory asks for is in scope in
-- the module that creates it, whatever else NestJS has in scope; and the modules of the application are
-- all that its modules import.
pub applications_resolve :
    (nest : Nest)
    → Provides nest
    → (root m : ModuleName) → Mem root applications
    → Mem m (modules_from root)
    → Within (asked m) (scope nest root m)
      × Within (imported_modules (module_of m).imports) (modules_from root)
unfolding serves
applications_resolve nest p root m r i =
    let ok = served root m r i in
    (
      λ t a. scope-Within nest p root m t (
          has-Mem Token-discrete (scope documented root m) t (
            every-Mem (has Token-discrete (scope documented root m)) (asked m) (ground (arith, ok))
              t a)),
      λ n a. has-Mem ModuleName-discrete (modules_from root) n (
          every-Mem (has ModuleName-discrete (modules_from root))
            (imported_modules (module_of m).imports) (ground (arith, ok)) n a),
    )
