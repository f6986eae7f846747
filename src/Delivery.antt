-- ===== src/Delivery.antt =====
-- validators.py and artifacts.py: what a delivery consists of, and the names of its files.
-- The file system, `hashlib`, `json.loads`, `zipfile` and `unicodedata` are parameters.
pub mod Manifest
pub mod Archive
pub mod Tested
pub mod Opened
pub mod Shaped
pub mod Sealed
pub mod Modes
pub mod Traced
pub mod Planned
pub mod Paths
pub mod Content
pub mod Checks
pub mod Evidenced
pub mod Located
pub mod Declared
pub mod Tracked
pub mod Trusted
pub mod Strict
pub mod Allowed
use proofbid.Regex.{◌then◌}
use proofbid.Readiness.{ValidationFinding}
use proofbid.Prelude.{
  Bool, Dict, List, Option, String, [], all, any, between, casefold, codes, contains, false,
  if◌then◌else◌, is_some, list_eq, map, nat_eq, none, nonempty, not, select, some, text_eq, truthy,
  ℕ, ◌&&◌, ◌++◌, ◌-◌, ◌==◌, ◌||◌, ◌∷◌,
}
use proofbid.Loading.{Json, scalar}
use proofbid.Json.{array_of, is_object, member}
use proofbid.Format.{scalar_text}
use Prim.Native.Char.{code}

abbrev pub Bytes : Type 0
Bytes = List ℕ

-- A member of a ZIP file. Its mode is `external_attr >> 16`; a member that cannot be decompressed
-- has no content.
pub record ZipMember : Type 0 where
  pub file_name : String
  pub is_dir : Bool
  pub create_system : ℕ
  pub mode : ℕ
  pub content : Option Bytes

-- An open ZIP file; `corrupt` is the outcome of `testzip`.
pub record ZipArchive : Type 0 where
  pub corrupt : Option String
  pub members : List ZipMember

-- What the program calls of the standard library. A text or a file without a value is one that
-- the library refuses to read. `repr` is `str` of an array or an object.
pub record Library : Type 0 where
  pub sha256 : Bytes → String
  pub decode : Bytes → Option String
  pub loads : String → Option Json
  pub open_zip : Bytes → Option ZipArchive
  pub normalize : String → String
  pub is_other : ℕ → Bool
  pub repr : Json → String

-- An absolute path.
pub record Place : Type 0 where
  pub parent : String
  pub base_name : String

-- A path as the caller hands it over; it has no place where resolving it fails.
pub record Supplied : Type 0 where
  pub raw_name : String
  pub is_link : Bool
  pub place : Option Place

-- An `ArtifactSet`, or a mapping in its stead: `fields` holds the paths of the fixed names that are
-- not `None`, and `output_dir` the resolved path, where it is given and can be resolved.
pub record ArtifactSet : Type 0 where
  pub output_dir : Option (Option String)
  pub fields : Dict String Supplied
  pub supplemental_payloads : List Supplied
  pub execution_mode : Option String

-- The delivery root: its regular files, where the links in it lead, and its listing.
pub record Storage : Type 0 where
  pub root : String
  pub file : String → Option Bytes
  pub link : String → Option Place
  pub listing : Option (List String)

abbrev pub manifest_name : String
manifest_name = "manifest.json"

abbrev pub archive_name : String
archive_name = "proofbid_bundle.zip"

abbrev pub trace_name : String
trace_name = "trace.jsonl"

abbrev pub result_name : String
result_name = "result.json"

abbrev pub core_names : List String
core_names =
    "proofbid.xlsx" ∷ "proofbid_report.docx" ∷ "requirements.json" ∷ "evidence.json" ∷ result_name
    ∷ []

abbrev pub planning_names : List String
planning_names = "task_spec.json" ∷ "execution_plan.json" ∷ "planner_receipt.json" ∷ []

-- The names of `ARTIFACT_FIXED_NAMES` and of the planning files.
abbrev pub canonical_delivery_names : List String
canonical_delivery_names = core_names ++ manifest_name ∷ archive_name ∷ trace_name ∷ planning_names

-- `_portable_payload_key`
unfoldable pub portable_payload_key : Library → String → List ℕ
portable_payload_key library name = casefold (library.normalize name)

-- A name whose key is that of a canonical name is spelled like it.
unfoldable pub is_canonical : Library → String → Bool
is_canonical library name =
    all
      (λ c. not (portable_payload_key library c == portable_payload_key library name) || c == name)
      canonical_delivery_names

-- `_portable_payload_key(name) in PLANNING_PORTABLE_KEYS`
unfoldable pub is_planning_key : Library → String → Bool
is_planning_key library name =
    contains (map (portable_payload_key library) planning_names) (portable_payload_key library name)

abbrev windows_reserved_names : List String
windows_reserved_names =
    "CON" ∷ "PRN" ∷ "AUX" ∷ "NUL" ∷ "CONIN$" ∷ "CONOUT$" ∷ "COM1" ∷ "COM2" ∷ "COM3" ∷ "COM4"
    ∷ "COM5" ∷ "COM6" ∷ "COM7" ∷ "COM8" ∷ "COM9" ∷ "LPT1" ∷ "LPT2" ∷ "LPT3" ∷ "LPT4" ∷ "LPT5"
    ∷ "LPT6" ∷ "LPT7" ∷ "LPT8" ∷ "LPT9" ∷ "COM¹" ∷ "COM²" ∷ "COM³" ∷ "LPT¹" ∷ "LPT²" ∷ "LPT³" ∷ []

-- `name.split(".", 1)[0]`
stem : List ℕ → List ℕ
stem [] = []
stem (c ∷ cs) = let rest = stem cs in if c == b'.' then [] else c ∷ rest

-- `.rstrip(" ")`
drop_spaces : List ℕ → List ℕ
drop_spaces [] = []
drop_spaces (c ∷ cs) =
    let rest = drop_spaces cs in if c == b' ' && not (nonempty rest) then [] else c ∷ rest

has_last : ℕ → List ℕ → Bool
has_last last [] = false
has_last last (c ∷ []) = c == last
has_last last (c ∷ d ∷ cs) = has_last last (d ∷ cs)

-- `.upper()`, on the letters of ASCII.
upper : List ℕ → List ℕ
upper cs = map (λ n. if between 97 122 n then n - 32 else n) cs

-- `_safe_flat_payload_name`. A name that passes the first tests is a single part of a POSIX and of
-- a Windows path, without drive or root, so the tests on the two path classes add nothing.
unfoldable pub is_safe_flat_name : Library → String → Bool
unfolding stem drop_spaces has_last upper
is_safe_flat_name library name =
    let cs = codes name in
    truthy name
    && not (contains ("." ∷ ".." ∷ []) name)
    && not (has_last b'.' cs || has_last b' ' cs)
    && not (any (contains (codes "<>:\"/\\|?*")) cs)
    && not (any library.is_other cs)
    && not (contains (map codes windows_reserved_names) (upper (drop_spaces (stem cs))))

-- A finding of the validators of a delivery.
abbrev pub delivery_finding : String → String → String → Bool → ValidationFinding
delivery_finding validator severity code passed = record {
  validator = validator;
  code = code;
  severity = severity;
  passed = passed;
}

abbrev pub is_file : Storage → String → Bool
is_file storage name = is_some (storage.file name)

abbrev pub and_then_option {ℓ κ} : {A : Type ℓ} {B : Type κ} → Option A → (A → Option B) → Option B
and_then_option none f = none
and_then_option (some a) f = f a

-- `_load_json` of a file of the root.
unfoldable pub load_json : Library → Storage → String → Option Json
load_json library storage name =
    and_then_option (and_then_option (storage.file name) library.decode) library.loads

-- `_load_json`, where only an object is used.
unfoldable pub load_object : Library → Storage → String → Option Json
load_object library storage name =
    and_then_option (load_json library storage name)
      (λ value. if is_object value then some value else none)

-- `str(value)`
unfoldable pub json_text : Library → Json → String
json_text library (scalar v) = scalar_text v
json_text library value = library.repr value

unfoldable pub text_or_empty : Library → Option Json → String
text_or_empty library none = ""
text_or_empty library (some value) = json_text library value

-- `str(entry.get(key, ""))`
unfoldable pub entry_text : Library → String → Json → String
entry_text library key entry = text_or_empty library (member key entry)

-- The texts under "path" of the entries that are objects.
unfoldable pub entry_names : Library → List Json → List String
entry_names library entries = map (entry_text library "path") (select is_object entries)

-- The entries of a manifest, where it lists them.
abbrev pub entries_or_empty : Option (List Json) → List Json
entries_or_empty none = []
entries_or_empty (some entries) = entries

unfoldable pub manifest_entries : Library → Storage → Option (List Json)
manifest_entries library storage =
    array_of (and_then_option (load_object library storage manifest_name) (member "files"))
