-- ===== src/Core/Uri.antt =====
-- crates/storageprims-core/src/uri.rs. A `StorageUri` keeps the text that it was parsed from.
pub mod Parse
use storageprims.Prelude.{
  Option, none, some, List, [], ◌∷◌, Bytes, codes, text, strip_prefix, split_once, is_empty, ◌||◌,
  zero, suc, ℕ, String,
}
use storageprims.Core.Error.{
  ProviderKind, s3, gcs, azure_blob, local, StorageOperation, StorageError, Result, ok, err, refuse,
  ◌>>◌,
}

pub record StorageUri : Type 0 where
  pub provider : ProviderKind
  pub raw : Bytes
  pub authority : Option Bytes
  pub container : Option Bytes
  pub path : Bytes

-- the `match` on `split_once('/')`: a missing slash leaves the path empty
abbrev pub container_and_path : Bytes → Option (Bytes × Bytes) → Bytes × Bytes
container_and_path rest none = (rest, [])
container_and_path rest (some found) = found

unfoldable pub parse_container_path : Bytes → Bytes → ProviderKind → Result StorageUri
parse_container_path raw rest provider =
    let (container, path) = container_and_path rest (split_once b'/' rest) in
    do
      refuse (is_empty container)
          (StorageError.invalid_uri raw (text "container or bucket name is empty"))
      ok (record {
        provider = provider;
        raw = raw;
        authority = none;
        container = some container;
        path = path;
      })

-- `splitn(count, '/')`
unfoldable pub splitn : ℕ → Bytes → List Bytes
splitn zero s = []
splitn (suc zero) s = s ∷ []
splitn (suc (suc n)) s = elim (split_once b'/' s) [
  | none ↦ s ∷ []
  | some (a, b) ↦ a ∷ splitn (suc n) b
]

abbrev azure_error : Bytes → StorageError
azure_error raw =
    StorageError.invalid_uri raw (text "Azure URI requires azb://account/container[/path]")

abbrev azure_uri : Bytes → Bytes → Bytes → Bytes → Result StorageUri
azure_uri raw account container path = do
  refuse (is_empty account || is_empty container) (azure_error raw)
  ok (record {
    provider = azure_blob;
    raw = raw;
    authority = some account;
    container = some container;
    path = path;
  })

-- the tests on `parts.len()` are the patterns; `splitn` gives three parts at most
azure_parts : Bytes → List Bytes → Result StorageUri
azure_parts raw (account ∷ container ∷ []) = azure_uri raw account container []
azure_parts raw (account ∷ container ∷ path ∷ _) = azure_uri raw account container path
azure_parts raw _ = err (azure_error raw)

unfoldable pub parse_azure : Bytes → Bytes → Result StorageUri
unfolding azure_parts splitn
parse_azure raw rest = azure_parts raw (splitn 3 rest)

unfoldable pub parse_local : Bytes → Bytes → Result StorageUri
parse_local raw rest = elim (strip_prefix (codes "/") rest) [
  | none ↦ err (
      StorageError.invalid_argument (some StorageOperation.parse_uri) raw
        (text "local file URI must contain an absolute path"))
  | some _ ↦
      ok (record { provider = local; raw = raw; authority = none; container = none; path = rest })
]

abbrev unsupported_scheme : Bytes → Result StorageUri
unsupported_scheme uri = err (
    StorageError.invalid_uri uri
      (text "unsupported scheme (expected s3://, gs://, azb://, or file://)"))

-- one `if let Some(rest) = uri.strip_prefix(scheme)` of the chain
abbrev on_scheme :
    String → Bytes → (Bytes → Result StorageUri) → Result StorageUri → Result StorageUri
on_scheme scheme uri found other = elim (strip_prefix (codes scheme) uri) [
  | none ↦ other
  | some rest ↦ found rest
]

unfoldable pub parse : Bytes → Result StorageUri
parse uri =
    on_scheme "s3://" uri (λ rest. parse_container_path uri rest s3)
      (on_scheme "gs://" uri (λ rest. parse_container_path uri rest gcs)
        (on_scheme "azb://" uri (λ rest. parse_azure uri rest)
          (on_scheme "file://" uri (λ rest. parse_local uri rest) (unsupported_scheme uri))))
