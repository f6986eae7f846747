-- ===== src/Delivery/Declared.antt =====
-- Which mode the three declarations of a delivery name, and that its trace can be read.
use proofbid.Regex.{◌then◌}
use proofbid.Prelude.{
  Bool, List, Option, Option-cases, String, arith, eqb→eq, if◌then◌else◌, inl, inr, is_some,
  list_eq, nat_eq, none, refl, some, text_eq, true, ◌≡◌, bool_eq,
}
use proofbid.Loading.{Json, array, object}
use proofbid.Json.{is_string, member}
use proofbid.Extraction.Documents.{split_lines}
use proofbid.Delivery.Modes.{
  delivery_trace_state, is_mode_consistent, loads_lines, manifest_names, observed_modes,
}
use proofbid.Delivery.{ArtifactSet, Bytes, Library, Storage, and_then_option, load_object, scalar}
use proofbid.Contracts.{text, null, flag, number}

-- The mode is declared by the caller, by the manifest and by the result, and a trace that is there
-- can be read.
pub record IsOneMode (library : Library) (artifacts : ArtifactSet) (storage : Storage)
    (mode : String) : Type 0 where
  pub manifest : Json
  pub result : Json
  pub declared : artifacts.execution_mode ≡ some mode
  pub at_manifest : load_object library storage "manifest.json" ≡ some manifest
  pub in_manifest : member "execution_mode" manifest ≡ some (scalar (text mode))
  pub at_result : load_object library storage "result.json" ≡ some result
  pub in_result : member "execution_mode" result ≡ some (scalar (text mode))
  pub trace_read :
      (bytes : Bytes)
      → storage.file "trace.jsonl" ≡ some bytes
      → (s : String) × (events : List Json) × (library.decode bytes ≡ some s)
        × (loads_lines library (split_lines s) ≡ some events)

pub is_string-some :
    (s : String) (value : Option Json) → is_string s value ≡ true → value ≡ some (scalar (text s))
unfolding is_string
is_string-some s none h = absurd (ground arith)
is_string-some s (some (scalar (text t))) h = rw (eqb→eq t s h) refl
is_string-some s (some (scalar null)) h = absurd (ground arith)
is_string-some s (some (scalar (flag b))) h = absurd (ground arith)
is_string-some s (some (scalar (number v t))) h = absurd (ground arith)
is_string-some s (some (array xs)) h = absurd (ground arith)
is_string-some s (some (object fs)) h = absurd (ground arith)

declared_mode :
    (mode : String) (o : Option String)
    → is_string mode (and_then_option o (λ m. some (scalar (text m)))) ≡ true
    → o ≡ some mode
unfolding is_string
declared_mode mode none h = absurd (ground arith)
declared_mode mode (some m) h = rw (eqb→eq m mode h) refl

mode_in :
    (mode : String) (o : Option Json)
    → is_string mode (and_then_option o (member "execution_mode")) ≡ true
    → (x : Json) × (o ≡ some x) × (member "execution_mode" x ≡ some (scalar (text mode)))
unfolding is_string
mode_in mode none h = absurd (ground arith)
mode_in mode (some x) h = (x, refl, is_string-some mode (member "execution_mode" x) h)

module _ (library : Library) (artifacts : ArtifactSet) (storage : Storage) where
  trace_events :
      (bytes : Bytes) (o : Option String)
      → library.decode bytes ≡ o
      → is_some (and_then_option o (λ s. loads_lines library (split_lines s))) ≡ true
      → (s : String) × (events : List Json) × (library.decode bytes ≡ some s)
        × (loads_lines library (split_lines s) ≡ some events)
  trace_events bytes none e h = absurd (ground arith)
  trace_events bytes (some s) e h = elim (Option-cases (loads_lines library (split_lines s))) [
    | inl k ↦ absurd (ground (arith, rw k at h))
    | inr (events, k) ↦ (s, events, e, k)
  ]

  parse_valid-read :
      (names : List String) (bytes : Bytes)
      → (delivery_trace_state library artifacts storage names).parse_valid ≡ true
      → storage.file "trace.jsonl" ≡ some bytes
      → is_some (and_then_option (library.decode bytes) (λ s. loads_lines library (split_lines s)))
        ≡ true
  unfolding delivery_trace_state
  parse_valid-read names bytes h e =
      elim (Option-cases
        (and_then_option (library.decode bytes) (λ s. loads_lines library (split_lines s)))) [
          | inl k ↦ absurd (ground (arith, rw (delivery_trace_state, e, k) at h))
          | inr (events, k) ↦ rw k refl
        ]

  pub is_mode_consistent-IsOneMode :
      (required : Bool)
      → is_mode_consistent library artifacts storage required ≡ true
      → IsOneMode library artifacts storage (if required then "agentic" else "deterministic")
  unfolding is_mode_consistent observed_modes
  is_mode_consistent-IsOneMode required h =
      let mode : String = if required then "agentic" else "deterministic" in
      let (manifest, at_manifest, in_manifest) =
        mode_in mode (load_object library storage "manifest.json") (ground arith) in
      let (result, at_result, in_result) =
        mode_in mode (load_object library storage "result.json") (ground arith) in
      let names = manifest_names library storage in
      let valid : (delivery_trace_state library artifacts storage names).parse_valid ≡ true =
        ground arith in
      record {
        manifest = manifest;
        result = result;
        declared = declared_mode mode artifacts.execution_mode (ground arith);
        at_manifest = at_manifest;
        in_manifest = in_manifest;
        at_result = at_result;
        in_result = in_result;
        trace_read = λ bytes e.
            trace_events bytes (library.decode bytes) refl (parse_valid-read names bytes valid e);
      }
