-- ===== src/Tests/Source.antt =====
-- URIs, selectors and selections.
use storageprims.Prelude.{
  ◌≡◌, ◌≢◌, ◌↔◌, refl, some, codes, All, [], eq_ignore_ascii_case, to_ascii_lowercase, split_once,
}
use storageprims.Core.Error.{StorageOperation, azure_blob, ok}
use storageprims.Core.Uri.{StorageUri, parse, parse_azure}
use storageprims.Core.Uri.Parse.{Denotes, parse_iff}
use storageprims.Core.Source.{
  SourceSelector, native_version, validate, validate_native_version, validate_strong_etag,
  GuardedReadSelection, bind, validate_for,
}
use storageprims.Core.Source.Selector.{
  IsStrongEtag, IsGraphic, IsStrongEtag-iff, validate-IsGraphic, validate_for-bind,
}

abbrev azure : StorageUri
azure = record {
  provider = azure_blob;
  raw = codes "azb://acct/box/a/b";
  authority = some (codes "acct");
  container = some (codes "box");
  path = codes "a/b";
}

parse_runs : parse (codes "azb://acct/box/a/b") ≡ ok azure
unfolding parse parse_azure split_once
parse_runs = refl

parse_iff_example :
    (parse (codes "azb://acct/box/a/b") ≡ ok azure) ↔ Denotes (codes "azb://acct/box/a/b") azure
parse_iff_example = parse_iff (codes "azb://acct/box/a/b") azure

IsStrongEtag-iff_example :
    (validate_strong_etag (codes "\"etag-1\"") ≡ ok tt) ↔ IsStrongEtag (codes "\"etag-1\"")
IsStrongEtag-iff_example = IsStrongEtag-iff (codes "\"etag-1\"")

abbrev version : SourceSelector
version = native_version (codes "version-1")

version_is_valid : validate version ≡ ok tt
unfolding validate validate_native_version eq_ignore_ascii_case to_ascii_lowercase
version_is_valid = refl

validate-IsGraphic_example : All IsGraphic (codes "version-1") × (codes "version-1" ≢ [])
validate-IsGraphic_example = validate-IsGraphic version version_is_valid

abbrev selection : GuardedReadSelection
selection = record { target_identity = codes "t"; key = codes "k"; selector = version }

binds : bind (codes "t") (codes "k") version ≡ ok selection
unfolding bind validate validate_native_version eq_ignore_ascii_case to_ascii_lowercase
binds = refl

validate_for-bind_example :
    (validate_for selection (codes "t") (codes "j") StorageOperation.guarded_get ≡ ok tt)
    ↔ ((codes "t" ≡ codes "t") × (codes "k" ≡ codes "j"))
validate_for-bind_example =
    validate_for-bind (codes "t") (codes "k") (codes "t") (codes "j") version
      StorageOperation.guarded_get binds
