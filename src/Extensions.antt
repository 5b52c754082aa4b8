-- ===== src/Extensions.antt =====
-- extensions.go: the extension list of a key package or of a group.
pub mod Laws
use go_mls.Base.{
  ℕ, ◌==◌, if◌then◌else◌, Bool, true, false, Option, none, some, List, [], ◌∷◌, ◌++◌, length, Bytes,
  Codec, Outcome, ok, err, Failure, marshal_failure, unmarshal_failure, trailing_data,
}

abbrev pub extension_type_invalid : ℕ
extension_type_invalid = 0x0000

abbrev pub extension_type_supported_versions : ℕ
extension_type_supported_versions = 0x0001

abbrev pub extension_type_supported_cipher_suites : ℕ
extension_type_supported_cipher_suites = 0x0002

abbrev pub extension_type_lifetime : ℕ
extension_type_lifetime = 0x0003

abbrev pub extension_type_key_id : ℕ
extension_type_key_id = 0x0004

abbrev pub extension_type_parent_hash : ℕ
extension_type_parent_hash = 0x0005

pub record Extension : Type 0 where
  pub extension_type : ℕ
  pub extension_data : Bytes

abbrev pub ExtensionList : Type 0
ExtensionList = List Extension

unfoldable pub new_extension_list : ExtensionList
new_extension_list = []

-- The bodies, each with the code point that its `Type` method returns.
pub record SupportedVersionsExtension : Type 0 where
  pub supported_versions : List ℕ

pub record SupportedCipherSuitesExtension : Type 0 where
  pub supported_cipher_suites : List ℕ

pub record LifetimeExtension : Type 0 where
  pub not_before : ℕ
  pub not_after : ℕ

pub record ParentHashExtension : Type 0 where
  pub parent_hash : Bytes

-- The interface `ExtensionBody` at a type: the code point, and how the package writes the body.
pub record ExtensionBody (B : Type 0) : Type 0 where
  pub type : ℕ
  pub codec : Codec B

abbrev pub supported_versions_body :
    Codec SupportedVersionsExtension → ExtensionBody SupportedVersionsExtension
supported_versions_body c = record { type = extension_type_supported_versions; codec = c }

abbrev pub supported_cipher_suites_body :
    Codec SupportedCipherSuitesExtension → ExtensionBody SupportedCipherSuitesExtension
supported_cipher_suites_body c = record { type = extension_type_supported_cipher_suites; codec = c }

abbrev pub lifetime_body : Codec LifetimeExtension → ExtensionBody LifetimeExtension
lifetime_body c = record { type = extension_type_lifetime; codec = c }

abbrev pub parent_hash_body : Codec ParentHashExtension → ExtensionBody ParentHashExtension
parent_hash_body c = record { type = extension_type_parent_hash; codec = c }

-- The loop of `Add`, with what follows it: replace the data of the first entry of the type, or
-- append an entry.
unfoldable pub put : ℕ → Bytes → ExtensionList → ExtensionList
put t data' [] = record { extension_type = t; extension_data = data' } ∷ []
put t data' (e ∷ es) =
    if e.extension_type == t then record e { extension_data = data' } ∷ es else e ∷ put t data' es

unfoldable pub add_data : ℕ → ExtensionList → Option Bytes → Outcome ExtensionList
add_data t el none = err marshal_failure
add_data t el (some data') = ok (put t data' el)

unfoldable pub add : {B : Type 0} → ExtensionBody B → ExtensionList → B → Outcome ExtensionList
add body el src = add_data body.type el (body.codec.encode src)

unfoldable pub has : ExtensionList → ℕ → Bool
has [] t = false
has (e ∷ es) t = if e.extension_type == t then true else has es t

-- `(found, err)` of `Find`, with the value read.
pub data Finding (B : Type 0) : Type 0 where
  absent : Finding B
  failed : Failure → Finding B
  found : B → Finding B

unfoldable pub read_all : {B : Type 0} → Bytes → Option (B × ℕ) → Finding B
read_all data' none = failed unmarshal_failure
read_all data' (some (b, read)) = if read == length data' then found b else failed trailing_data

unfoldable pub find : {B : Type 0} → ExtensionBody B → ExtensionList → Finding B
find body [] = absent
find body (e ∷ es) =
    if e.extension_type == body.type
    then read_all e.extension_data (body.codec.decode e.extension_data)
    else find body es
