-- ===== src/Delivery/Tested.antt =====
-- What the single tests on a delivery mean.
use proofbid.Readiness.{is_blocking}
use proofbid.Prelude.{
  Bool, List, Memᴰ, Option-cases, String, [], all, arith, casefold_in, contains, eqb→eq, false, inl,
  inr, length, list_eq, nat_eq, refl, select, some, text_eq, true, ◌∷◌, ◌≡◌, Option, none, sym,
  ◌&&◌,
}
use proofbid.Loading.{Json, array, object}
use proofbid.Contracts.{text, null, flag, number}
use proofbid.Json.{is_count, is_string, member, is_object}
use proofbid.Format.{scalar_text}
use proofbid.Delivery.Manifest.{is_declared_file}
use proofbid.Delivery.Archive.{read_member, zip_names, member_findings}
use proofbid.Delivery.{
  Library, Storage, ZipArchive, delivery_finding, entry_text, json_text, Bytes, text_or_empty,
  scalar,
}
use proofbid.Bundle.Passing.{passes}
use Prim.Native.Char.{code}

pub passes-delivery :
    (validator code : String) (passed : Bool)
    → passes (delivery_finding validator "blocker" code passed) ≡ passed
unfolding is_blocking casefold_in
passes-delivery validator code true = refl
passes-delivery validator code false = refl

pub select-all {ℓ} : {A : Type ℓ} (p : A → Bool) (xs : List A) → all p xs ≡ true → select p xs ≡ xs
select-all p [] h = refl
select-all p (x ∷ xs) h = ground (arith, select-all p xs (ground arith))

pub all-mem {ℓ} :
    {A : Type ℓ} (p : A → Bool) {x : A} {xs : List A} → all p xs ≡ true → Memᴰ x xs → p x ≡ true
all-mem p h (Memᴰ.head e) = rw e (ground arith)
all-mem p h (Memᴰ.tail m) = all-mem p (ground arith) m

-- The test on a declared file, on its bytes.
pub is_declared_file-bytes :
    (library : Library) (storage : Storage) (name : String) (entry : Json)
    → is_declared_file library storage name entry ≡ true
    → (b : Bytes) × (storage.file name ≡ some b)
      × (library.sha256 b ≡ entry_text library "sha256" entry)
      × (is_count (length b) (member "size" entry) ≡ true)
unfolding is_declared_file
is_declared_file-bytes library storage name entry h = elim (Option-cases (storage.file name)) [
  | inl e ↦ absurd (ground (arith, e))
  | inr (b, e) ↦
      let k = rw (is_declared_file, e) at h in
      (
        b,
        e,
        eqb→eq (library.sha256 b) (entry_text library "sha256" entry) (ground arith),
        ground arith,
      )
]

pub is_string-entry :
    (library : Library) (s : String) (value : Option Json)
    → is_string s value ≡ true
    → s ≡ text_or_empty library value
unfolding text_or_empty is_string json_text scalar_text
is_string-entry library s (some (scalar (text t))) h = sym (eqb→eq t s h)
is_string-entry library s (some (scalar null)) h = absurd (ground arith)
is_string-entry library s (some (scalar (flag b))) h = absurd (ground arith)
is_string-entry library s (some (scalar (number v t))) h = absurd (ground arith)
is_string-entry library s (some (array xs)) h = absurd (ground arith)
is_string-entry library s (some (object fs)) h = absurd (ground arith)
is_string-entry library s none h = absurd (ground arith)

-- A member of the archive that has passed the test on its content.
pub record IsMatching (library : Library) (zip : ZipArchive) (entry : Json) : Type 0 where
  pub content : Bytes
  pub at_content : read_member zip (entry_text library "path" entry) ≡ some content
  pub hashed : is_string (library.sha256 content) (member "sha256" entry) ≡ true
  pub sized : is_count (length content) (member "size" entry) ≡ true

member_findings-step :
    (library : Library) (zip : ZipArchive) (e : Json) (es : List Json)
    → all passes (member_findings library zip (e ∷ es)) ≡ true
    → is_object e ≡ true
    → contains (zip_names zip) (entry_text library "path" e) ≡ true
    → IsMatching library zip e × (all passes (member_findings library zip es) ≡ true)
unfolding member_findings
member_findings-step library zip e es h o k =
    let name = entry_text library "path" e in
    let j = rw (o, k) at h in
    elim (Option-cases (read_member zip name)) [
      | inl r ↦ absurd (ground (arith, passes-delivery "zip" "ZIP_REOPENABLE" false, rw r at j))
      | inr (c, r) ↦
          let test =
            is_string (library.sha256 c) (member "sha256" e)
            && is_count (length c) (member "size" e) in
          let f = passes-delivery "zip" "ZIP_MEMBER_HASH" test in
          let l = rw (r, f) at j in
          (
            record { content = c; at_content = r; hashed = ground arith; sized = ground arith },
            ground arith,
          )
    ]

pub IsMatching-mem :
    (library : Library) (zip : ZipArchive) {entry : Json} (entries : List Json)
    → all passes (member_findings library zip entries) ≡ true
    → all is_object entries ≡ true
    → ((e : Json) → Memᴰ e entries → contains (zip_names zip) (entry_text library "path" e) ≡ true)
    → Memᴰ entry entries
    → IsMatching library zip entry
IsMatching-mem library zip [] h o k m = elim m [ ]
IsMatching-mem library zip (e ∷ es) h o k (Memᴰ.head same) =
    rw same ((member_findings-step library zip e es h (ground arith) (k e (Memᴰ.head refl))).0)
IsMatching-mem library zip (e ∷ es) h o k (Memᴰ.tail m) =
    let (_, rest) = member_findings-step library zip e es h (ground arith) (k e (Memᴰ.head refl)) in
    IsMatching-mem library zip es rest (ground arith) (λ x n. k x (Memᴰ.tail n)) m
