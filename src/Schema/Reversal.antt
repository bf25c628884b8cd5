-- ===== src/Schema/Reversal.antt =====
-- That `down` of the migration takes back what `up` did.
use realtime_ops_platform.Prelude.{
  List, [], ◌∷◌, ◌++◌, ◌≡◌, refl, Option, none, some, inl, inr, Option-cases, subst, arith,
}
use realtime_ops_platform.Schema.{
  Ddl, create_extension, create_type, create_table, create_index, add_foreign_key, drop_constraint,
  drop_index, drop_table, drop_type,
}
use realtime_ops_platform.Schema.Up.{schema_statements, up}
use realtime_ops_platform.Schema.Dropping.{down}

-- the statement that takes back one that creates something
abbrev pub undo : Ddl → Option Ddl
undo (create_type name values) = some (drop_type name)
undo (create_table name columns constraints) = some (drop_table name)
undo (create_index name table columns) = some (drop_index name)
undo (add_foreign_key table key) = some (drop_constraint table key.name)
undo _ = none

-- `xs` and then `d`
abbrev pub and_last : Option (List Ddl) → Option Ddl → Option (List Ddl)
and_last (some ds) (some d) = some (ds ++ d ∷ [])
and_last _ _ = none

-- each taken back, the last one first
abbrev pub undo_all : List Ddl → Option (List Ddl)
undo_all [] = some []
undo_all (c ∷ cs) = and_last (undo_all cs) (undo c)

-- PostgreSQL: what a statement makes of the schema, where it does not fail. A drop takes back a
-- statement that was executed just before it.
pub record Postgres (S : Type 0) : Type 0 where
  pub execute : Ddl → S → Option S
  pub drops : (c d : Ddl) (s t : S) → undo c ≡ some d → execute c s ≡ some t → execute d t ≡ some s

abbrev after : {S : Type 0} → Option S → (S → Option S) → Option S
after none f = none
after (some s) f = f s

-- The queries of a migration are awaited one after the other, and the first that fails ends it.
abbrev pub run : {S : Type 0} → Postgres S → List Ddl → S → Option S
run db [] s = some s
run db (c ∷ cs) s = after (db.execute c s) (run db cs)

module _ {S : Type 0} (db : Postgres S) where
  run-append :
      (cs ds : List Ddl) (s t : S) → run db cs s ≡ some t → run db (cs ++ ds) s ≡ run db ds t
  run-append [] ds s t e = ground (arith, e)
  run-append (c ∷ cs) ds s t e = elim (Option-cases (db.execute c s)) [
    | inl failed ↦ absurd (ground (arith, e, failed))
    | inr (u, done) ↦ rw done (run-append cs ds u t (ground (arith, e, done)))
  ]

  undone_step :
      (c d : Ddl) (cs ds : List Ddl) (s t u : S)
      → undo c ≡ some d
      → db.execute c s ≡ some u
      → run db ds t ≡ some u
      → run db (ds ++ d ∷ []) t ≡ some s
  undone_step c d cs ds s t u e done back =
      rw (run-append ds (d ∷ []) t u back) (rw (db.drops c d s u e done) refl)

  -- What a list of statements has created is dropped by `undo_all` of it.
  undone :
      (cs ds : List Ddl) (s t : S)
      → undo_all cs ≡ some ds
      → run db cs s ≡ some t
      → run db ds t ≡ some s
  undone [] ds s t e r = ground (arith, e, r)
  undone (c ∷ cs) ds s t e r = elim (Option-cases (undo_all cs)) [
    | inl none_left ↦ absurd (ground (arith, e, none_left))
    | inr (es, f) ↦ elim (Option-cases (undo c)) [
      | inl not_undone ↦ absurd (ground (arith, e, f, not_undone))
      | inr (d, g) ↦ elim (Option-cases (db.execute c s)) [
        | inl failed ↦ absurd (ground (arith, r, failed))
        | inr (u, done) ↦
            let back = undone cs es u t f (ground (arith, r, done)) in
            let all : es ++ d ∷ [] ≡ ds = ground (arith, e, f, g) in
            subst (λ xs. run db xs t ≡ some s) all (undone_step c d cs es s t u g done back)
      ]
    ]
  ]

-- Whatever schema PostgreSQL had, if `up` runs to its end, `down` runs to its end after it and leaves
-- the schema that the creation of the extension had left: every type, table, index and foreign key
-- that `up` created is dropped, the last one first, and the extension stays.
pub down_restores :
    {S : Type 0} (db : Postgres S) (s t : S)
    → run db up s ≡ some t
    → (u : S) × (db.execute (create_extension "uuid-ossp") s ≡ some u) × (run db down t ≡ some u)
down_restores db s t e = elim (Option-cases (db.execute (create_extension "uuid-ossp") s)) [
  | inl failed ↦ absurd (ground (arith, e, failed))
  | inr (u, done) ↦ (u, done, undone db schema_statements down u t refl (ground (arith, e, done)))
]
