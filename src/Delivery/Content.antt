-- ===== src/Delivery/Content.antt =====
-- validators.py: the JSON files of a delivery.
use proofbid.Readiness.{ValidationFinding}
use proofbid.Prelude.{
  List, Option, String, [], false, flat_map, length, list_eq, nat_eq, none, some, text_eq, true, ℕ,
  ◌==◌, ◌∷◌,
}
use proofbid.Loading.{Json}
use proofbid.Json.{array_of, member}
use proofbid.Delivery.{Library, Storage, delivery_finding, load_object, result_name}
use proofbid.Contracts.{AnalysisBundle}

-- The findings on a file once it has been parsed.
unfoldable pub content_findings_of : String → Option ℕ → Json → List ValidationFinding
content_findings_of required_key expected_count payload = elim (member required_key payload) [
  | none ↦ delivery_finding "json" "error" "JSON_REQUIRED_CONTENT" false ∷ []
  | some content ↦
      delivery_finding "json" "error" "JSON_REQUIRED_CONTENT" true ∷ elim expected_count [
        | none ↦ []
        | some expected ↦
            delivery_finding "json" "error" "JSON_RECORD_COUNT" (elim (array_of (some content)) [
              | none ↦ false
              | some records ↦ length records == expected
            ])
            ∷ []
      ]
]

-- One round of the loop of `_validate_json_files`.
unfoldable pub json_file_findings :
    Library → Storage → String × String × Option ℕ → List ValidationFinding
json_file_findings library storage (name, required_key, expected_count) =
    elim (load_object library storage name) [
      | none ↦ delivery_finding "json" "error" "JSON_PARSEABLE" false ∷ []
      | some payload ↦
          delivery_finding "json" "error" "JSON_PARSEABLE" true
          ∷ content_findings_of required_key expected_count payload
    ]

unfoldable pub validate_json_files : Library → Storage → AnalysisBundle → List ValidationFinding
validate_json_files library storage bundle = flat_map (json_file_findings library storage) (
    ("requirements.json", "requirements", some (length bundle.requirements))
    ∷ ("evidence.json", "evidence", some (length bundle.evidence))
    ∷ (result_name, "analysis", none)
    ∷ [])
