-- ===== src/Tasks/Memory.antt =====
-- A store in memory that keeps the laws of a store, for the examples. It stands for no adapter of
-- task_store.py: those write a state as JSON to a file or to an object, which is not modelled.
use proofbid.Tasks.Value.{TaskState}
use proofbid.Tasks.Store.{
  Bytes, IsStore, TaskStore, base_name, validate_task_id, Writes, is_task_id, Puts,
}
use proofbid.Regex.{◌then◌}
use proofbid.Prelude.{
  [], Bool-cases, Dict, Option, String, get_key, get_key-put_key, if◌then◌else◌, inl, inr, list_eq,
  nat_eq, none, put_key, refl, some, text_eq, ◌==◌, ◌≡◌, eqb_refl, true, Bool, ap, eqb-other,
  eqb→eq, false, sym, ◌∙◌, ◌≢◌, not,
}
use proofbid.Errors.{Result, ok, ◌>>◌, refuse}

pub record TaskFiles : Type 0 where
  pub state : Option TaskState
  pub artifacts : Dict String Bytes

abbrev no_files : TaskFiles
no_files = record { state = none; artifacts = [] }

abbrev files_or : Option TaskFiles → TaskFiles
files_or none = no_files
files_or (some f) = f

-- The directory of a task.
unfoldable pub task_files : String → Dict String TaskFiles → TaskFiles
task_files task_id files = files_or (get_key task_id files)

unfoldable pub write_state :
    String → TaskState → Dict String TaskFiles → Result (Dict String TaskFiles)
write_state task_id state files = do
  validate_task_id task_id
  ok (put_key task_id (record (task_files task_id files) { state = some state }) files)

unfoldable pub read_state : String → Dict String TaskFiles → Result (Option TaskState)
read_state task_id files = do validate_task_id task_id; ok (task_files task_id files).state

unfoldable pub put_artifact :
    String → String → Bytes → Dict String TaskFiles → Result (Dict String TaskFiles)
put_artifact task_id name bytes files = do
  validate_task_id task_id
  let f = task_files task_id files
  ok (put_key task_id (record f { artifacts = put_key (base_name name) bytes f.artifacts }) files)

unfoldable pub artifact_bytes : String → String → Dict String TaskFiles → Result (Option Bytes)
artifact_bytes task_id name files = do
  validate_task_id task_id
  ok (get_key (base_name name) (task_files task_id files).artifacts)

abbrev pub memory_store : TaskStore
memory_store = record {
  Files = Dict String TaskFiles;
  write_state = write_state;
  read_state = read_state;
  put_artifact = put_artifact;
  artifact_bytes = artifact_bytes;
}

files_or-choice :
    (b : Bool) (x : TaskFiles) (o : Option TaskFiles)
    → files_or (if b then some x else o) ≡ (if b then x else files_or o)
files_or-choice true x o = refl
files_or-choice false x o = refl

task_files-put :
    (u v : String) (x : TaskFiles) (f : Dict String TaskFiles)
    → task_files u (put_key v x f) ≡ (if v == u then x else task_files u f)
unfolding task_files
task_files-put u v x f =
    ap files_or (get_key-put_key u v x f) ∙ files_or-choice (v == u) x (get_key u f)

module _ (u : String) (x : TaskFiles) (f : Dict String TaskFiles) where
  task_files-put_same : task_files u (put_key u x f) ≡ x
  task_files-put_same = rw (task_files-put u u x f) (rw (eqb_refl u) refl)

  task_files-put_other : (v : String) → v ≢ u → task_files v (put_key u x f) ≡ task_files v f
  task_files-put_other v n = rw (task_files-put v u x f) (rw (eqb-other u v (λ e. n (sym e))) refl)

  -- A part of the files that the new ones share with the old.
  task_files-put_part :
      {A : Type 0} (part : TaskFiles → A)
      → part x ≡ part (task_files u f)
      → (v : String) → part (task_files v (put_key u x f)) ≡ part (task_files v f)
  task_files-put_part part same v = rw (task_files-put v u x f) (elim (Bool-cases (u == v)) [
    | inl e ↦ let here = eqb→eq u v e in rw e (rw (← here) same)
    | inr e ↦ rw e refl
  ])

-- `validate_task_id` before a reading.
abbrev checked : {A : Type 0} → String → A → Result A
checked task_id a = refuse (not (is_task_id task_id)) "Invalid task id" >> ok a

get_key-put_key_other :
    (j k : String) (v : Bytes) (d : Dict String Bytes)
    → j ≢ k
    → get_key j (put_key k v d) ≡ get_key j d
get_key-put_key_other j k v d n =
    rw (get_key-put_key j k v d) (rw (eqb-other k j (λ e. n (sym e))) refl)

write_state-Writes :
    (u : String) (s : TaskState) (f : Dict String TaskFiles)
    → is_task_id u ≡ true
    → (g : Dict String TaskFiles) × (write_state u s f ≡ ok g) × Writes memory_store f g u s
unfolding validate_task_id write_state read_state artifact_bytes
write_state-Writes u s f h =
    let x = record (task_files u f) { state = some s } in
    (
      put_key u x f,
      simp h refl,
      record {
        kept = simp (h, task_files-put_same u x f) refl;
        others = λ v n. ap (λ t. checked v t.state) (task_files-put_other u x f v n);
        artifacts = λ v name.
            ap (λ a. checked v (get_key (base_name name) a))
              (task_files-put_part u x f (λ t. t.artifacts) refl v);
      },
    )

put_artifact-Puts :
    (u name : String) (bytes : Bytes) (f : Dict String TaskFiles)
    → is_task_id u ≡ true
    → (g : Dict String TaskFiles) × (put_artifact u name bytes f ≡ ok g)
      × Puts memory_store f g u name bytes
unfolding validate_task_id put_artifact read_state artifact_bytes
put_artifact-Puts u name bytes f h =
    let old = task_files u f in
    let x = record old { artifacts = put_key (base_name name) bytes old.artifacts } in
    (
      put_key u x f,
      simp h refl,
      record {
        kept =
            simp
              (
                h,
                task_files-put_same u x f,
                get_key-put_key (base_name name) (base_name name) bytes old.artifacts,
                eqb_refl (base_name name),
              )
              refl;
        others = λ n d.
            ap (λ t. checked u (get_key (base_name n) t.artifacts)) (task_files-put_same u x f)
            ∙ ap (checked u)
                (get_key-put_key_other (base_name n) (base_name name) bytes old.artifacts d);
        strangers = λ v n d.
            ap (λ t. checked v (get_key (base_name n) t.artifacts))
              (task_files-put_other u x f v d);
        states = λ v. ap (checked v) (task_files-put_part u x f (λ t. t.state) refl v);
      },
    )

pub memory_store-IsStore : IsStore memory_store
unfolding validate_task_id read_state
memory_store-IsStore = record {
  refuses_state = λ u f h. simp h refl;
  readable = λ u f h. ((task_files u f).state, simp h refl);
  writes = write_state-Writes;
  puts = put_artifact-Puts;
}
