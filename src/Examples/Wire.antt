-- ===== src/Examples/Wire.antt =====
-- A codec that is lawful: numbers with lengths in front, in place of pydantic's JSON.
use yomotsusaka.Prelude.{
  ℕ, zero, suc, Text, Option, none, some, List, [], ◌∷◌, length, ◌≡◌, refl, ap, ℤ, pos, negsuc,
}
use yomotsusaka.Schemas.{
  EntityKind, person, org, location, date, id_number, financial, health, custom, EntityRecord,
  PrivateDictEntry, DocumentManifest,
}
use yomotsusaka.Vault.{Codec, IsLawful}

-- A way to put a value in front of a text and to get it back.
pub record Wire (A : Type 0) : Type 0 where
  pub put : A → Text → Text
  pub get : Text → Option (A × Text)
  pub law : (a : A) (r : Text) → get (put a r) ≡ some (a, r)

abbrev pub after : {A B : Type 0} → Option (A × Text) → (A → Text → Option B) → Option B
after none f = none
after (some (a, r)) f = f a r

abbrev pub number : Wire ℕ
number = record { put = ◌∷◌; get = get; law = λ a r. refl }
  where
    get : Text → Option (ℕ × Text)
    get [] = none
    get (n ∷ r) = some (n, r)

abbrev pub pair : {A B : Type 0} → Wire A → Wire B → Wire (A × B)
pair v w = record {
  put = λ p r. v.put p.0 (w.put p.1 r);
  get = λ t. after (v.get t) (λ a s. after (w.get s) (λ b r. some ((a, b), r)));
  law = λ p r. rw (v.law p.0 (w.put p.1 r), after, w.law p.1 r) refl;
}

abbrev pub by_retract :
    {A B : Type 0} (f : A → B) (g : B → A) → ((b : B) → f (g b) ≡ b) → Wire A → Wire B
by_retract f g h w = record {
  put = λ b r. w.put (g b) r;
  get = λ t. after (w.get t) (λ a r. some (f a, r));
  law = λ b r. rw (w.law (g b) r, after, h b) refl;
}

module _ {A : Type 0} (w : Wire A) where
  abbrev pub put_all : List A → Text → Text
  put_all [] r = r
  put_all (x ∷ xs) r = w.put x (put_all xs r)

  abbrev pub get_all : ℕ → Text → Option (List A × Text)
  get_all zero t = some ([], t)
  get_all (suc n) t = after (w.get t) (λ x s. after (get_all n s) (λ xs r. some (x ∷ xs, r)))

  pub get_all_lem : (xs : List A) (r : Text) → get_all (length xs) (put_all xs r) ≡ some (xs, r)
  get_all_lem [] r = refl
  get_all_lem (x ∷ xs) r = rw (w.law x (put_all xs r), after, get_all_lem xs r) refl

  abbrev pub counted : Wire (List A)
  counted = record {
    put = λ xs r. length xs ∷ put_all xs r;
    get = λ t. after (number.get t) get_all;
    law = λ xs r. get_all_lem xs r;
  }

abbrev pub text_wire : Wire Text
text_wire = counted number

abbrev pub kind_code : EntityKind → ℕ
kind_code person = 0
kind_code org = 1
kind_code location = 2
kind_code date = 3
kind_code id_number = 4
kind_code financial = 5
kind_code health = 6
kind_code custom = 7

abbrev pub kind_of : ℕ → EntityKind
kind_of zero = person
kind_of (suc zero) = org
kind_of (suc (suc zero)) = location
kind_of (suc (suc (suc zero))) = date
kind_of (suc (suc (suc (suc zero)))) = id_number
kind_of (suc (suc (suc (suc (suc zero))))) = financial
kind_of (suc (suc (suc (suc (suc (suc zero)))))) = health
kind_of _ = custom

pub kind_of-kind_code : (k : EntityKind) → kind_of (kind_code k) ≡ k
kind_of-kind_code person = refl
kind_of-kind_code org = refl
kind_of-kind_code location = refl
kind_of-kind_code date = refl
kind_of-kind_code id_number = refl
kind_of-kind_code financial = refl
kind_of-kind_code health = refl
kind_of-kind_code custom = refl

abbrev pub kind_wire : Wire EntityKind
kind_wire = by_retract kind_of kind_code kind_of-kind_code number

abbrev pub int_parts : ℤ → ℕ × ℕ
int_parts (pos n) = (0, n)
int_parts (negsuc n) = (1, n)

abbrev pub int_of : ℕ × ℕ → ℤ
int_of (zero, n) = pos n
int_of (_, n) = negsuc n

pub int_of-int_parts : (z : ℤ) → int_of (int_parts z) ≡ z
int_of-int_parts (pos n) = refl
int_of-int_parts (negsuc n) = refl

abbrev pub int_wire : Wire ℤ
int_wire = by_retract int_of int_parts int_of-int_parts (pair number number)

abbrev pub entity_wire : Wire EntityRecord
entity_wire =
    by_retract
      (λ (p : (EntityKind × Text) × (ℤ × ℤ)). record {
        kind = p.0.0;
        redacted_key = p.0.1;
        start_char = p.1.0;
        end_char = p.1.1;
      })
      (λ e. ((e.kind, e.redacted_key), (e.start_char, e.end_char))) (λ e. refl)
      (pair (pair kind_wire text_wire) (pair int_wire int_wire))

abbrev pub entry_wire : Wire PrivateDictEntry
entry_wire =
    by_retract
      (λ (p : EntityKind × (Text × Text)). record {
        key = p.1.0;
        original_value = p.1.1;
        kind = p.0;
      })
      (λ e. (e.kind, (e.key, e.original_value))) (λ e. refl)
      (pair kind_wire (pair text_wire text_wire))

abbrev pub manifest_wire : Wire DocumentManifest
manifest_wire =
    by_retract
      (λ (p : (Text × Text) × ((Text × List EntityRecord) × (List Text × Text))). record {
        doc_id = p.0.0;
        source_ref = p.0.1;
        redacted_text = p.1.0.0;
        entities = p.1.0.1;
        labels = p.1.1.0;
        summary = p.1.1.1;
      })
      (λ m. ((m.doc_id, m.source_ref), ((m.redacted_text, m.entities), (m.labels, m.summary))))
      (λ m. refl)
      (pair (pair text_wire text_wire)
        (pair (pair text_wire (counted entity_wire)) (pair (counted text_wire) text_wire)))

abbrev pub first : {A : Type 0} → Option (A × Text) → Option A
first none = none
first (some (a, r)) = some a

abbrev pub codec : Codec
codec = record {
  dump_manifest = λ m. manifest_wire.put m [];
  load_manifest = λ t. first (manifest_wire.get t);
  dump_entries = λ es. (counted entry_wire).put es [];
  load_entries = λ t. first ((counted entry_wire).get t);
}

pub codec-IsLawful : IsLawful codec
codec-IsLawful = record {
  manifests = λ m. ap first (manifest_wire.law m []);
  entries = λ es. ap first ((counted entry_wire).law es []);
}
