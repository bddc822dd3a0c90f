-- ===== src/Vault.antt =====
-- The vault: a disk of text files, and the kernel's two operations on it
-- (src/yomotsusaka/commit.py, src/yomotsusaka/restoration_api.py).
-- What a call has written before it raises stays written, so the disk comes back beside an error.
-- A path is the list of its parts, as pathlib keeps it.
pub mod Laws
use yomotsusaka.Prelude.{
  ℕ, Text, codes, eq_text, eq_text_iff, eq_text_refl, Bool, true, false, Option, none, some, List,
  [], ◌∷◌, ◌++◌, ◌≡◌, ◌&&◌, arith, Result, ok, err, ◌>>=◌, ◌>>◌, require, if◌then◌else◌,
}
use yomotsusaka.Schemas.{PrivateDictEntry, DocumentManifest, ArtifactHandle}

abbrev pub FilePath : Type 0
FilePath = List Text

unfoldable pub eq_path : FilePath → FilePath → Bool
unfolding eq_text
eq_path [] [] = true
eq_path (s ∷ p) (t ∷ q) = eq_text s t && eq_path p q
eq_path _ _ = false

pub record Disk : Type 0 where
  pub files : FilePath → Option Text
  -- The paths at which a write, or the making of a directory, raises `OSError`.
  pub refuses : FilePath → Bool

-- `restoration_api.RestorationError`, and what else escapes from `restore`.
pub data VaultError : Type 0 where
  os_error outside_vault unreadable : VaultError
  no_private_data : Text → VaultError

-- Serialisation is pydantic's and json's: a parameter.
pub record Codec : Type 0 where
  pub dump_manifest : DocumentManifest → Text
  pub load_manifest : Text → Option DocumentManifest
  pub dump_entries : List PrivateDictEntry → Text
  pub load_entries : Text → Option (List PrivateDictEntry)

-- Reading what was written gives it back.
pub record IsLawful (c : Codec) : Type 0 where
  pub manifests : (m : DocumentManifest) → c.load_manifest (c.dump_manifest m) ≡ some m
  pub entries : (es : List PrivateDictEntry) → c.load_entries (c.dump_entries es) ≡ some es

abbrev pub OnDisk : Type 0 → Type 0
OnDisk A = Disk → Result VaultError A × Disk

abbrev pub continue {ℓ} :
    {A : Type 0} {B : Type ℓ}
    → Result VaultError A × Disk
    → (A → Disk → Result VaultError B × Disk)
    → Result VaultError B × Disk
continue (ok a, d) f = f a d
continue (err e, d) f = (err e, d)

-- `path.write_text(content)`
unfoldable pub write_text : FilePath → Text → OnDisk (Unit {0})
unfolding eq_path
write_text path content d =
    if d.refuses path
    then (err os_error, d)
    else (ok tt, record d { files = λ q. if eq_path path q then some content else d.files q })

-- `path.relative_to(root)` does not raise.
unfoldable pub is_under : FilePath → FilePath → Bool
unfolding eq_text
is_under [] path = true
is_under (s ∷ root) [] = false
is_under (s ∷ root) (t ∷ path) = eq_text s t && is_under root path

abbrev pub manifest_path : FilePath → Text → FilePath
manifest_path vault_root doc_id = vault_root ++ codes "manifests" ∷ (doc_id ++ codes ".json") ∷ []

abbrev pub private_path : FilePath → Text → FilePath
private_path vault_root doc_id = vault_root ++ codes "private" ∷ (doc_id ++ codes ".json") ∷ []

-- The three `mkdir`s of a commit. The disk keeps files only, so a directory that is made leaves it as
-- it was.
abbrev pub make_dirs : FilePath → OnDisk (Unit {0})
make_dirs vault_root d =
    if d.refuses vault_root
    then (err os_error, d)
    else (if d.refuses (vault_root ++ codes "manifests" ∷ [])
        then (err os_error, d)
        else (if d.refuses (vault_root ++ codes "private" ∷ [])
            then (err os_error, d)
            else (ok tt, d)))

module _ (codec : Codec) where
  -- `commit.commit`
  unfoldable pub commit :
      DocumentManifest → List PrivateDictEntry → FilePath → OnDisk ArtifactHandle
  unfolding write_text
  commit manifest private_dict vault_root d = continue (make_dirs vault_root d) λ _ d0.
      continue
        (write_text (manifest_path vault_root manifest.doc_id) (codec.dump_manifest manifest) d0)
        λ _ d'.
          continue
            (write_text (private_path vault_root manifest.doc_id) (codec.dump_entries private_dict)
              d')
            λ _ d''. (
              ok (record {
                doc_id = manifest.doc_id;
                vault_path = private_path vault_root manifest.doc_id;
              }),
              d'',
            )

  abbrev pub read_entries : Text → Option Text → Result VaultError (List PrivateDictEntry)
  read_entries doc_id none = err (no_private_data doc_id)
  read_entries doc_id (some raw) = elim (codec.load_entries raw) [
    | none ↦ err unreadable
    | some entries ↦ ok entries
  ]

  -- `restoration_api.restore`; `resolve` is `Path.resolve`, which follows symbolic links.
  unfoldable pub restore :
      (FilePath → FilePath)
      → ArtifactHandle
      → FilePath
      → Disk
      → Result VaultError (List PrivateDictEntry)
  unfolding is_under
  restore resolve handle vault_root d =
      let private_root = resolve (vault_root ++ codes "private" ∷ []) in
      let candidate_path = resolve handle.vault_path in
      if is_under private_root candidate_path
      then read_entries handle.doc_id (d.files candidate_path)
      else err outside_vault
