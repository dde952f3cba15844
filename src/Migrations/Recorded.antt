-- ===== src/Migrations/Recorded.antt =====
-- What migrations leave in `schema_migrations`, and what is run again.
use reddit_kafka.Base.{
  ◌≡◌, ◌≢◌, refl, sym, ap, ◌∙◌, ℕ, true, false, List, [], ◌∷◌, Option, none, some, String, Dict,
  lookup, has, All, arith, str_eq, str_eq_refl, str_eq_iff, Bool-cases, inl, inr,
}
use reddit_kafka.Migrations.Failures.{
  Exceptions, Failure, modified_migration, Answer, done, failed, and_then,
}
use reddit_kafka.Migrations.Applying.{
  Database, Codec, MigrationFile, is_blank, execute_sql_script, apply_version, apply_file,
  apply_files,
}

str_ne : (a b : String) → a ≢ b → str_eq a b ≡ false
str_ne a b ne = elim (Bool-cases (str_eq a b)) [
  | inl same ↦ absurd (ne ((str_eq_iff a b).0 same))
  | inr other ↦ other
]

has_tail : (a v : String) (xs : List String) → has v xs ≡ true → has v (a ∷ xs) ≡ true
has_tail a v xs h = ground arith

has_none : (a v : String) (xs : List String) → has v (a ∷ xs) ≡ false → (a ≢ v) × (has v xs ≡ false)
has_none a v xs h = ((λ same. ground (arith, h, (str_eq_iff a v).1 same)), ground arith)

has_ne : (a v : String) (xs : List String) → has a xs ≡ false → has v xs ≡ true → a ≢ v
has_ne a v xs fresh listed same = cc (sym fresh ∙ ap (λ (b : String). has b xs) same ∙ listed)

module _ {x : Exceptions} where
  -- a step that follows another has succeeded only if both have
  pub and_then_done :
      {A B : Type 0} (o : Answer x A) (next : A → Answer x B) (b : B)
      → and_then o next ≡ done b
      → (a : A) × (o ≡ done a) × (next a ≡ done b)
  and_then_done (done a) next b e = (a, refl, e)
  and_then_done (failed f) next b e = absurd cc

  pub done_injective : {A : Type 0} (a b : A) (o : Answer x A) → o ≡ done a → o ≡ done b → a ≡ b
  done_injective a b o p q = cc

  pub refused_done :
      {A : Type 0} (e : Failure x) (a : A) (o : Answer x A) → o ≡ failed e → o ≡ done a → ⊥
  refused_done e a o p q = cc

  abbrev pub names : List (MigrationFile x) → List String
  names [] = []
  names (file ∷ files) = file.name ∷ names files

  -- no two files have one name
  abbrev pub IsDistinct : List (MigrationFile x) → Type 0
  IsDistinct [] = Unit {0}
  IsDistinct (file ∷ files) = (has file.name (names files) ≡ false) × IsDistinct files

module _ {x : Exceptions} (db : Database x) (codec : Codec x) where
  -- the script of the file leaves `schema_migrations` alone
  abbrev pub IsTidy : MigrationFile x → Type 0
  IsTidy file =
      (bytes : List ℕ) (sql : String) (before after : db.Db)
      → file.read_bytes ≡ done bytes
      → codec.decode bytes ≡ done sql
      → db.execute sql before ≡ done after
      → db.rows after ≡ db.rows before

  -- the file can be read, and the checksum of what it holds stands beside its name
  abbrev pub IsRecorded : db.Db → MigrationFile x → Type 0
  IsRecorded d file =
      (bytes : List ℕ) × (sql : String) × (file.read_bytes ≡ done bytes)
      × (codec.decode bytes ≡ done sql)
      × (lookup file.name (db.rows d) ≡ some (codec.sha256 bytes))

  script_run :
      (sql : String) (d : db.Db)
      → is_blank sql ≡ false
      → execute_sql_script db codec sql d ≡ db.execute sql d
  unfolding execute_sql_script
  script_run sql d full = rw full refl

  execute_sql_script-rows :
      (file : MigrationFile x) (bytes : List ℕ) (sql : String) (d d' : db.Db)
      → IsTidy file
      → file.read_bytes ≡ done bytes
      → codec.decode bytes ≡ done sql
      → execute_sql_script db codec sql d ≡ done d'
      → db.rows d' ≡ db.rows d
  unfolding execute_sql_script
  execute_sql_script-rows file bytes sql d d' tidy read decoded e =
      elim (Bool-cases (is_blank sql)) [
        | inl blank ↦
            ap db.rows (done_injective d' d (execute_sql_script db codec sql d) e (rw blank refl))
        | inr full ↦ tidy bytes sql d d' read decoded (sym (script_run sql d full) ∙ e)
      ]

  -- a version that has succeeded: its row, and all others
  apply_version_lem :
      (o : Option String) (version sql : String) (bytes : List ℕ) (d d' : db.Db)
      → ((after : db.Db)
          → execute_sql_script db codec sql d ≡ done after
          → db.rows after ≡ db.rows d)
      → o ≡ lookup version (db.rows d)
      → apply_version db codec o version sql bytes d ≡ done d'
      → (lookup version (db.rows d') ≡ some (codec.sha256 bytes))
        × ((v : String) → version ≢ v → lookup v (db.rows d') ≡ lookup v (db.rows d))
  unfolding apply_version
  apply_version_lem (some applied) version sql bytes d d' tidy agrees e =
      elim (Bool-cases (str_eq applied (codec.sha256 bytes))) [
        | inl same ↦
            let unchanged =
              done_injective d' d (apply_version db codec (some applied) version sql bytes d) e
                (rw same refl) in
            rw unchanged (
              sym agrees ∙ ap some ((str_eq_iff applied (codec.sha256 bytes)).0 same),
              (λ v ne. refl),
            )
        | inr other ↦ absurd (refused_done (modified_migration version) d' _ (rw other refl) e)
      ]
  apply_version_lem none version sql bytes d d' tidy agrees e =
      let (ran, executed, inserted) = and_then_done (execute_sql_script db codec sql d) _ d' e in
      let row = λ (v : String). db.lookup-insert version (codec.sha256 bytes) ran d' v inserted in
      (
        row version ∙ rw (str_eq_refl version) refl,
        λ v ne. row v ∙ rw (str_ne version v ne) (ap (lookup v) (tidy ran executed)),
      )

  -- one file that has been applied: its row, and all others
  apply_file_lem :
      (applied : Dict String) (file : MigrationFile x) (d d' : db.Db)
      → IsTidy file
      → lookup file.name applied ≡ lookup file.name (db.rows d)
      → apply_file db codec applied file d ≡ done d'
      → IsRecorded d' file
        × ((v : String) → file.name ≢ v → lookup v (db.rows d') ≡ lookup v (db.rows d))
  unfolding apply_file
  apply_file_lem applied file d d' tidy agrees e =
      let (bytes, read, e1) = and_then_done file.read_bytes _ d' e in
      let (sql, decoded, e2) = and_then_done (codec.decode bytes) _ d' e1 in
      let law =
        apply_version_lem (lookup file.name applied) file.name sql bytes d d'
          (λ after. execute_sql_script-rows file bytes sql d after tidy read decoded) agrees e2 in
      ((bytes, sql, read, decoded, law.0), law.1)

  -- the loop: a row for each of its files, and all others as they were
  pub apply_files_lem :
      (applied : Dict String) (files : List (MigrationFile x)) (d d' : db.Db)
      → IsDistinct files
      → All IsTidy files
      → ((v : String) → has v (names files) ≡ true → lookup v applied ≡ lookup v (db.rows d))
      → apply_files db codec applied files d ≡ done d'
      → All (IsRecorded d') files
        × ((v : String)
            → has v (names files) ≡ false
            → lookup v (db.rows d') ≡ lookup v (db.rows d))
  unfolding apply_files
  apply_files_lem applied [] d d' distinct tidy agrees e =
      (tt, (λ v _. ap (λ (a : db.Db). lookup v (db.rows a)) (done_injective d' d _ e refl)))
  apply_files_lem applied (file ∷ files) d d' (fresh, distinct) (tidy, all_tidy) agrees e =
      let (mid, first, others) =
        and_then_done (apply_file db codec applied file d) (apply_files db codec applied files) d'
          e in
      let ((bytes, sql, read, decoded, row), kept) =
        apply_file_lem applied file d mid tidy (agrees file.name (rw (str_eq_refl file.name) refl))
          first in
      let (recorded, left) =
        apply_files_lem applied files mid d' distinct all_tidy
          (λ v listed.
            agrees v (has_tail file.name v (names files) listed)
            ∙ sym (kept v (has_ne file.name v (names files) fresh listed)))
          others in
      (
        ((bytes, sql, read, decoded, left file.name fresh ∙ row), recorded),
        λ v absent.
            left v (has_none file.name v (names files) absent).1
            ∙ kept v (has_none file.name v (names files) absent).0,
      )
