-- ===== src/Ops/Align/Binary.antt =====
-- Which prefixes the test for binary content lets pass.
use storageprims.Prelude.{
  ◌≡◌, ◌≢◌, ◌↔◌, refl, ap, sym, ◌∙◌, arith, [], ◌∷◌, ◌++◌, Bytes, All, any, false, true, inl, inr,
  Option-cases, strip_prefix, strip_prefix_sound,
}
use storageprims.Prelude.Utf8.{utf8_ok}
use storageprims.Prelude.Utf8.Complete.{has_error_len_iff, utf8_ok-bom, utf8_ok-first}
use storageprims.Core.Error.{ProviderKind, StorageOperation, ok}
use storageprims.Ops.Align.{reject_binary_prefix, starts_with_utf16_bom, strip_utf8_bom, is_nul}

any-is_nul : (bytes : Bytes) → (any is_nul bytes ≡ false) ↔ All (λ c. c ≢ 0) bytes
any-is_nul [] = ground arith
any-is_nul (c ∷ bytes) = ground (arith, any-is_nul bytes)

-- A prefix passes exactly when it does not start with a byte order mark of UTF-16, has no NUL,
-- and without its UTF-8 mark is a prefix of some valid UTF-8 text: a code point that the end of the
-- prefix splits is not taken for binary content.
pub reject_binary_prefix_iff :
    (bytes : Bytes) (provider : ProviderKind) (operation : StorageOperation)
    → (reject_binary_prefix bytes provider operation ≡ ok tt) ↔ (
        (starts_with_utf16_bom bytes ≡ false)
        × All (λ c. c ≢ 0) bytes
        × ((rest : Bytes) × (utf8_ok (strip_utf8_bom bytes ++ rest) ≡ true)))
unfolding reject_binary_prefix
reject_binary_prefix_iff bytes provider operation =
    let u = has_error_len_iff (strip_utf8_bom bytes) in
    let n = any-is_nul bytes in
    (
      λ q. (ground (arith, q), n.0 (ground (arith, q)), u.0 (ground (arith, q))),
      λ (b, z, r). ground (arith, b, n.1 z, u.1 r),
    )

no_utf16_bom :
    (bytes rest : Bytes) → utf8_ok (bytes ++ rest) ≡ true → starts_with_utf16_bom bytes ≡ false
unfolding starts_with_utf16_bom
no_utf16_bom [] rest h = refl
no_utf16_bom (a ∷ []) rest h = refl
no_utf16_bom (a ∷ b ∷ s) rest h = ground (arith, utf8_ok-first a _ h)

abbrev bom : Bytes
bom = 0xEF ∷ 0xBB ∷ 0xBF ∷ []

strip_utf8_ok :
    (bytes rest : Bytes)
    → utf8_ok (bytes ++ rest) ≡ true
    → utf8_ok (strip_utf8_bom bytes ++ rest) ≡ true
unfolding strip_utf8_bom
strip_utf8_ok bytes rest h = elim (Option-cases (strip_prefix bom bytes)) [
  | inl e ↦ rw e h
  | inr (r, e) ↦
      let d = strip_prefix_sound bom bytes r e in
      rw e (sym (utf8_ok-bom (r ++ rest)) ∙ ap (λ x. utf8_ok (x ++ rest)) (sym d) ∙ h)
]

-- The probe of an object whose bytes are valid UTF-8 and hold no NUL passes wherever it is cut.
pub reject_binary_prefix-utf8_ok :
    (bytes rest : Bytes) (provider : ProviderKind) (operation : StorageOperation)
    → utf8_ok (bytes ++ rest) ≡ true
    → All (λ c. c ≢ 0) bytes
    → reject_binary_prefix bytes provider operation ≡ ok tt
reject_binary_prefix-utf8_ok bytes rest provider operation h z =
    (reject_binary_prefix_iff bytes provider operation).1
      (no_utf16_bom bytes rest h, z, (rest, strip_utf8_ok bytes rest h))
