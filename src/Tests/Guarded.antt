-- ===== src/Tests/Guarded.antt =====
-- Guarded reads of the S3 provider over a client of one object.
use storageprims.Prelude.{
  ℕ, ◌+◌, ◌≡◌, refl, arith, none, some, Bytes, codes, text, bytes_eq, split_once, option_eq, false,
  ◌∷◌, ◌++◌,
}
use storageprims.Prelude.Decimal.{parse_u64, display}
use storageprims.Core.Config.Hides.{sanitize_endpoint-hides}
use storageprims.Core.Config.{
  scheme_end, sanitize_endpoint, split_scheme, split_authority, behind_last_at,
}
use storageprims.Core.Error.{ok}
use storageprims.Core.Source.{
  GuardedRangeRequest, validator_match, validate_for, validate, validate_strong_etag, checked_len,
}
use storageprims.Ops.Provider.{GuardedReadResponse}
use storageprims.S3.Keys.{resolve_key, join_key}
use storageprims.S3.Response.{
  pos, observed_native_version, checked_content_length, checked_receipt, check_selector,
  parse_content_range, range_total, range_window,
}
use storageprims.S3.Stream.{DeclaredLengthRead, new_declared}
use storageprims.S3.Guarded.{
  S3Provider, Client, answer, range_end, check_range, request_end, bound_key, range_answer,
  range_response, guarded_get_range, guarded_target_identity, apply_selector,
}
use storageprims.S3.Guarded.Range.{IsServed, guarded_get_range-IsServed}

cleans :
    sanitize_endpoint (codes "https://user:pw@host:9000/path@x")
    ≡ codes "https://***@host:9000/path@x"
unfolding sanitize_endpoint split_scheme split_authority behind_last_at
cleans = refl

abbrev bucket : S3Provider
bucket = record { bucket = codes "b"; root_prefix = none; endpoint = none }

abbrev etag : Bytes
etag = codes "\"v1\""

abbrev client : Client ℕ Bytes
client = record {
  head_object = λ request w. (
    answer (record {
      delete_marker = none;
      version_id = none;
      e_tag = some etag;
      content_length = some (pos 8);
      content_type = none;
      last_modified = none;
      metadata = none;
    }),
    w + 1,
  );
  get_object = λ request w. (
    answer (record {
      status = some 206;
      delete_marker = some false;
      version_id = none;
      e_tag = some etag;
      content_length = some (pos 5);
      content_range = some (codes "bytes 3-7/8");
      body = codes "cd\r\ne";
    }),
    w + 1,
  );
}

abbrev request : GuardedRangeRequest
request = record {
  selection = record {
    target_identity = codes "s3|aws|b|";
    key = codes "a";
    selector = validator_match etag;
  };
  offset = 3;
  length = 9;
}

abbrev served : GuardedReadResponse (DeclaredLengthRead Bytes)
served = record {
  receipt = record {
    path = codes "a";
    native_version = none;
    validator = some etag;
    total_size = some 8;
    requested_window = some (record { start = 3; end = 11 });
    returned_window = some (record { start = 3; end = 7 });
  };
  reader = record { reader = codes "cd\r\ne"; remaining = some 5; checked_end = false };
}

serves : guarded_get_range bucket client request 0 ≡ (ok served, 1)
unfolding guarded_get_range request_end bound_key range_response range_answer check_range range_end
    guarded_target_identity apply_selector validate_for validate validate_strong_etag resolve_key
    join_key checked_receipt check_selector checked_content_length observed_native_version
    parse_content_range range_total range_window parse_u64 checked_len new_declared text bytes_eq
    display split_once option_eq
serves = refl

guarded_get_range-IsServed_example : IsServed request served
guarded_get_range-IsServed_example =
    guarded_get_range-IsServed bucket client request 0 1 served (omega arith) serves

sanitize_endpoint-hides_example :
    sanitize_endpoint
      (codes "https" ++ (scheme_end ++ (codes "user:pw" ++ b'@' ∷ codes "host/p@q")))
    ≡ sanitize_endpoint (codes "https" ++ (scheme_end ++ (codes "a@b" ++ b'@' ∷ codes "host/p@q")))
sanitize_endpoint-hides_example =
    sanitize_endpoint-hides (codes "https") (codes "user:pw") (codes "a@b") (codes "host/p@q")
      (ground arith) (ground arith) (ground arith)
