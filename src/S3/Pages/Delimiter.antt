-- ===== src/S3/Pages/Delimiter.antt =====
-- Which delimiter pages the check accepts.
use storageprims.Prelude.{
  ℕ, ◌+◌, ◌^◌, ◌≤◌, ◌<◌, ◌≡◌, ◌↔◌, arith, Bool, Option, none, some, List, [], ◌∷◌, map, length, All,
  is_some, Bytes, inl, inr, true, false,
}
use mathlib.Core.Path.{subst}
use storageprims.Core.Error.{Result-cases, ok}
use storageprims.S3.Keys.{bad_token}
use storageprims.S3.Pages.{
  Entries, mismatch, delimiter_page_bound, visit_objects, visit_prefixes,
  validate_delimiter_list_page,
}
use storageprims.S3.Pages.Accept.{under}
use storageprims.S3.Pages.Rows.{
  Continues, IsNewPrefix, visit_objects_sound, visit_objects-map, visit_prefixes_sound,
  visit_prefixes-map,
}

-- the truncation flag tells whether there is a token, which has 1 to 8192 bytes
abbrev IsContinuation : Bool → Option Bytes → Type 0
IsContinuation is_truncated none = is_truncated ≡ false
IsContinuation is_truncated (some token) =
    (is_truncated ≡ true) × (1 ≤ length token) × (length token ≤ 8192)

-- what a delimiter page holds, in terms of its projected objects and prefixes
pub record IsDelimiterPage (root_prefix : Option Bytes) (caller_prefix : Bytes) (page_bound : ℕ)
    (object_keys common_prefixes : Entries) (is_truncated : Bool) (token : Option Bytes)
    : Type 0 where
  pub objects : List Bytes
  pub prefixes : List Bytes
  pub object_entries : object_keys ≡ map (under root_prefix) objects
  pub prefix_entries : common_prefixes ≡ map (under root_prefix) prefixes
  pub objects_continue : All (Continues caller_prefix) objects
  pub prefixes_continue : All (Continues caller_prefix) prefixes
  pub prefixes_are_new : All (IsNewPrefix objects) prefixes
  pub rows : length objects + length prefixes ≤ page_bound
  pub continuation : IsContinuation is_truncated token

IsContinuation-iff :
    (is_truncated : Bool) (token : Option Bytes)
    → ((mismatch is_truncated (is_some token) ≡ false) × (bad_token token ≡ false))
      ↔ IsContinuation is_truncated token
IsContinuation-iff true none = ground arith
IsContinuation-iff false none = ground arith
IsContinuation-iff true (some []) = ground arith
IsContinuation-iff true (some (c ∷ token)) = ground arith
IsContinuation-iff false (some token) = ground arith

-- A delimiter page is accepted exactly when it has at most the rows of its bound, every object
-- and common prefix lies under the root and continues the caller's prefix, no common prefix is
-- empty or is also an object, and the truncation flag tells whether there is a continuation token,
-- of 1 to 8192 bytes.
pub validate_delimiter_list_page_iff :
    (root_prefix : Option Bytes) (caller_prefix : Bytes) (max_keys : Option ℕ)
    (object_keys common_prefixes : Entries) (is_truncated : Bool) (token : Option Bytes)
    → delimiter_page_bound max_keys < 2 ^ 32
    → (validate_delimiter_list_page root_prefix caller_prefix max_keys object_keys common_prefixes
          is_truncated token
        ≡ ok tt)
      ↔ IsDelimiterPage root_prefix caller_prefix
          (delimiter_page_bound max_keys)
          object_keys
          common_prefixes
          is_truncated
          token
unfolding validate_delimiter_list_page
validate_delimiter_list_page_iff root_prefix caller_prefix max_keys object_keys common_prefixes
      is_truncated token fits =
    let bound = delimiter_page_bound max_keys in
    let wide : bound < 2 ^ 64 = omega (arith, fits) in
    let c = IsContinuation-iff is_truncated token in
    (
      λ q. elim (Result-cases (visit_objects root_prefix caller_prefix bound 0 [] object_keys)) [
        | inl ((n, all), e) ↦
            let (os, ko, co, len, le, eq) =
              visit_objects_sound root_prefix caller_prefix bound wide 0 n [] all object_keys e
                (omega arith) in
            let v : visit_prefixes root_prefix caller_prefix bound n all common_prefixes ≡ ok tt =
              ground (arith, q, e) in
            let (ps, kp, cp, np, rows) =
              visit_prefixes_sound root_prefix caller_prefix bound wide n all common_prefixes v
                le in
            record {
              objects = os;
              prefixes = ps;
              object_entries = ko;
              prefix_entries = kp;
              objects_continue = co;
              prefixes_continue = cp;
              prefixes_are_new = subst (λ x. All (IsNewPrefix x) ps) eq np;
              rows = omega (arith, rows, len);
              continuation = ground (arith, q, e, c);
            }
        | inr (x, e) ↦ ground (arith, q, e)
      ],
      λ d.
          let e =
            visit_objects-map root_prefix caller_prefix bound wide 0 [] d.objects d.objects_continue
              (omega (arith, d.rows)) in
          let f =
            visit_prefixes-map root_prefix caller_prefix bound wide (length d.objects) d.objects
              d.prefixes d.prefixes_continue d.prefixes_are_new d.rows in
          ground (arith, c.1 d.continuation, e, f, d.object_entries, d.prefix_entries),
    )
