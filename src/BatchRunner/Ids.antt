-- ===== src/BatchRunner/Ids.antt =====
-- The ids that the runner derives.
use yomotsusaka.Prelude.{
  ℕ, ◌+◌, ◌≤◌, zero, suc, Text, codes, eq_text, Bool, true, false, [], ◌∷◌, ◌++◌, all, length,
  length-append, take, length-take, le→leb, ◌≡◌, refl, arith, Bool-cases, inl, inr, and_split,
  and_intro, if◌then◌else◌, all_imp,
}
use yomotsusaka.Charset.{is_name_char, is_name, is_traversal}
use yomotsusaka.Validator.{is_hex}
use yomotsusaka.Redactor.Keys.{IsHexDigest}
use yomotsusaka.Boundary.Locator.{is_opaque_id}
use yomotsusaka.BatchRunner.{InboxFile, or_doc, sanitised, stem_part, derive_doc_id}

all-append : (p : ℕ → Bool) (s t : Text) → all p s ≡ true → all p t ≡ true → all p (s ++ t) ≡ true
all-append p [] t h k = k
all-append p (c ∷ s) t h k =
    let (here, rest) = and_split _ _ h in and_intro _ _ here (all-append p s t rest k)

all-take : (p : ℕ → Bool) (n : ℕ) (t : Text) → all p t ≡ true → all p (take n t) ≡ true
all-take p zero t h = refl
all-take p (suc n) [] h = refl
all-take p (suc n) (c ∷ t) h =
    let (here, rest) = and_split _ _ h in and_intro _ _ here (all-take p n t rest)

underscore_name : is_name_char b'_' ≡ true
unfolding is_name_char
underscore_name = refl

name_char_or_dash : (c : ℕ) → is_name_char (if is_name_char c then c else b'_') ≡ true
name_char_or_dash c = elim (Bool-cases (is_name_char c)) [
  | inl e ↦ rw e e
  | inr e ↦ rw e underscore_name
]

sanitised-name : (t : Text) → all is_name_char (sanitised t) ≡ true
unfolding sanitised
sanitised-name [] = refl
sanitised-name (c ∷ t) = and_intro _ _ (name_char_or_dash c) (sanitised-name t)

or_doc-name : (t : Text) → all is_name_char t ≡ true → all is_name_char (or_doc t) ≡ true
unfolding is_name_char
or_doc-name [] h = refl
or_doc-name (c ∷ t) h = h

doc_name : all is_name_char (codes "doc") ≡ true
unfolding is_name_char
doc_name = refl

doc_or_name :
    (b : Bool) (name : Text)
    → all is_name_char name ≡ true
    → all is_name_char (if b then codes "doc" else or_doc name) ≡ true
doc_or_name true name h = doc_name
doc_or_name false name h = or_doc-name name h

stem_part-name : (stem : Text) → all is_name_char (stem_part stem) ≡ true
unfolding stem_part
stem_part-name stem =
    let name = sanitised (or_doc stem) in
    let chosen : Text = if is_traversal name then codes "doc" else or_doc name in
    or_doc-name (take 117 chosen) (
      all-take is_name_char 117 chosen
        (doc_or_name (is_traversal name) name (sanitised-name (or_doc stem))))

or_doc_bounded : (n : ℕ) (t : Text) → 3 ≤ n → length t ≤ n → length (or_doc t) ≤ n
or_doc_bounded n [] h k = omega arith
or_doc_bounded n (c ∷ t) h k = k

stem_part_bounded : (stem : Text) → length (stem_part stem) ≤ 117
unfolding stem_part
stem_part_bounded stem =
    let name = sanitised (or_doc stem) in
    let chosen : Text = if is_traversal name then codes "doc" else or_doc name in
    or_doc_bounded 117 (take 117 chosen) (omega arith) (omega (arith, length-take 117 chosen))

hex_name : (t : Text) → all is_hex t ≡ true → all is_name_char t ≡ true
unfolding is_hex is_name_char
hex_name t h = all_imp is_hex is_name_char t (λ c k. ground arith) h

long_no_traversal : (t : Text) → 3 ≤ length t → is_traversal t ≡ false
unfolding is_traversal eq_text
long_no_traversal [] h = absurd (omega arith)
long_no_traversal (a ∷ []) h = absurd (omega arith)
long_no_traversal (a ∷ b ∷ []) h = absurd (omega arith)
long_no_traversal (a ∷ b ∷ c ∷ t) h = ground arith

name_of :
    (t : Text) → 1 ≤ length t → length t ≤ 128 → all is_name_char t ≡ true → is_name 128 t ≡ true
unfolding is_name
name_of [] h k n = absurd (omega arith)
name_of (c ∷ t) h k n = and_intro _ _ n (le→leb _ _ k)

opaque_of : (t : Text) → is_name 128 t ≡ true → is_traversal t ≡ false → is_opaque_id t ≡ true
opaque_of t h k = rw (h, k) refl

-- The suffix of every derived id.
suffix_name :
    (digest : Text) → all is_name_char digest ≡ true → all is_name_char (b'-' ∷ digest) ≡ true
unfolding is_name_char
suffix_name digest h = h

-- If the digest is sixty-four hexadecimal digits, then the id that is derived for a file is an
-- opaque id of at most 128 characters, however long the stem is, and is the part that comes from
-- the stem, a dash and the first ten digits of the digest of the file's relative path, which are
-- ten hexadecimal digits.
pub derive_doc_id-is_opaque_id :
    (path_digest : Text → Text) (file : InboxFile)
    → IsHexDigest path_digest
    → let id = derive_doc_id path_digest file in
      (is_opaque_id id ≡ true)
      × (length id ≤ 128)
      × (id ≡ stem_part file.stem ++ b'-' ∷ take 10 (path_digest file.relative))
      × ((length (take 10 (path_digest file.relative)) ≡ 10)
          × (all is_hex (take 10 (path_digest file.relative)) ≡ true))
unfolding derive_doc_id
derive_doc_id-is_opaque_id path_digest file hex =
    let head = stem_part file.stem in
    let digest = take 10 (path_digest file.relative) in
    let ten : length digest ≡ 10 =
      omega (arith, length-take 10 (path_digest file.relative), hex.digits file.relative) in
    let whole : length (head ++ b'-' ∷ digest) ≡ length head + 11 =
      omega (arith, length-append head (b'-' ∷ digest), ten) in
    let bounded : length (head ++ b'-' ∷ digest) ≤ 128 =
      omega (arith, whole, stem_part_bounded file.stem) in
    let named : all is_name_char (head ++ b'-' ∷ digest) ≡ true =
      all-append is_name_char head (b'-' ∷ digest) (stem_part-name file.stem) (
        suffix_name digest
          (hex_name digest (all-take is_hex 10 _ (hex.hexadecimal file.relative)))) in
    (
      opaque_of (head ++ b'-' ∷ digest)
          (name_of (head ++ b'-' ∷ digest) (omega (arith, whole)) bounded named)
          (long_no_traversal (head ++ b'-' ∷ digest) (omega (arith, whole))),
      bounded,
      refl,
      (ten, all-take is_hex 10 _ (hex.hexadecimal file.relative)),
    )
