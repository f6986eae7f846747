-- ===== src/Pipeline/Inputs.antt =====
-- What the required inputs are once they have been found.
use proofbid.Prelude.{
  Bool, Bool-cases, List, Memᴰ, Option-cases, String, any, arith, false, inl, inr, is_some, not,
  some, true, ◌≡◌, eqb→eq, text_eq, nat_eq, list_eq,
}
use proofbid.Errors.{Result, ok, raised}
use proofbid.Contracts.{DocumentType, SourceDocument, document_type_value}
use proofbid.Pipeline.{by_name, documents_by_name, required_inputs, has_type}

-- A document of that path, of that type.
pub record IsPresent (documents : List SourceDocument) (name : String) (type : DocumentType)
    : Type 0 where
  pub document : SourceDocument
  pub at_name : by_name documents name ≡ some document
  pub typed : document_type_value document.document_type ≡ document_type_value type

IsPresent-has_type :
    (documents : List SourceDocument) (name : String) (type : DocumentType)
    → has_type documents (name, type) ≡ true
    → IsPresent documents name type
unfolding has_type
IsPresent-has_type documents name type h = elim (Option-cases (by_name documents name)) [
  | inl e ↦ absurd (ground arith)
  | inr (d, e) ↦ record {
    document = d;
    at_name = e;
    typed =
        eqb→eq (document_type_value d.document_type) (document_type_value type) (ground (arith, e));
  }
]

any-mem {ℓ} :
    {A : Type ℓ} (p : A → Bool) {x : A} {xs : List A}
    → any (λ y. not (p y)) xs ≡ false
    → Memᴰ x xs
    → p x ≡ true
any-mem p h (Memᴰ.head e) = rw e (ground arith)
any-mem p h (Memᴰ.tail m) = any-mem p (ground arith) m

pub documents_by_name-IsPresent :
    (scanned : Result (List SourceDocument)) (documents : List SourceDocument)
    → documents_by_name scanned ≡ ok documents
    → (scanned ≡ ok documents)
      × ((name : String) (type : DocumentType)
          → Memᴰ (name, type) required_inputs
          → IsPresent documents name type)
unfolding documents_by_name
documents_by_name-IsPresent (raised x) documents h = absurd (ground arith)
documents_by_name-IsPresent (ok ds) documents h =
    elim (Bool-cases
      (any (λ (i : String × DocumentType). not (is_some (by_name ds i.0))) required_inputs)) [
        | inl e ↦ absurd (ground (arith, e))
        | inr e ↦ elim (Bool-cases (any (λ i. not (has_type ds i)) required_inputs)) [
          | inl f ↦ absurd (ground (arith, e, f))
          | inr f ↦
              let same : ok ds ≡ ok documents = ground (arith, e, f) in
              (
                same,
                λ name type m.
                    IsPresent-has_type documents name type
                      (any-mem (has_type documents) (ground (arith, f, same)) m),
              )
        ]
      ]
