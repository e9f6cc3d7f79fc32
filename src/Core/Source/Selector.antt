-- ===== src/Core/Source/Selector.antt =====
-- What validated selectors look like, and what a bound selection is good for.
use storageprims.Prelude.{
  ℕ, ◌-◌, ◌≤◌, suc, ◌≡◌, refl, ◌≢◌, ◌↔◌, true, some, [], ◌∷◌, ◌++◌, arith, Bytes, length, last,
  slice, take, all, All, ==_iff, bytes_eq_iff, length-append, All-append, length-take, ap,
}
use storageprims.Core.Error.{StorageOperation, ok}
use storageprims.Core.Source.{
  SourceSelector, native_version, validator_match, graphic, etag_byte, is_quote,
  validate_native_version, validate_strong_etag, validate, selector_token, GuardedReadSelection,
  bind, validate_for,
}

abbrev pub IsGraphic : ℕ → Type 0
IsGraphic b = (0x21 ≤ b) × (b ≤ 0x7e)

-- a graphic byte other than the quote
abbrev pub IsEtagByte : ℕ → Type 0
IsEtagByte b = IsGraphic b × (b ≢ b'"')

all-graphic : (s : Bytes) → all graphic s ≡ true → All IsGraphic s
all-graphic [] h = tt
all-graphic (c ∷ s) h = ground (arith, all-graphic s)

all-etag_byte : (s : Bytes) → all etag_byte s ≡ true → All IsEtagByte s
all-etag_byte [] h = tt
all-etag_byte (c ∷ s) h = ground (arith, all-etag_byte s)

All-etag_byte : (s : Bytes) → All IsEtagByte s → all etag_byte s ≡ true
All-etag_byte [] h = refl
All-etag_byte (c ∷ s) h = ground (arith, All-etag_byte s)

-- One quoted entity tag: a quote, at least one and at most 126 bytes that are graphic and no quote,
-- and a quote.
pub record IsStrongEtag (token : Bytes) : Type 0 where
  pub inner : Bytes
  pub spelled : token ≡ b'"' ∷ (inner ++ b'"' ∷ [])
  pub nonempty : 1 ≤ length inner
  pub bounded : length inner ≤ 126
  pub bytes : All IsEtagByte inner

last-concat : (s : Bytes) (c : ℕ) → last (s ++ c ∷ []) ≡ some c
last-concat [] c = refl
last-concat (x ∷ []) c = refl
last-concat (x ∷ y ∷ s) c = last-concat (y ∷ s) c

take-concat : (s : Bytes) (c : ℕ) → take (length s) (s ++ c ∷ []) ≡ s
take-concat [] c = refl
take-concat (x ∷ s) c = ap (◌∷◌ x) (take-concat s c)

-- a text whose last byte is a quote is what stands before it, and the quote
unsnoc :
    (c : ℕ) (s : Bytes)
    → is_quote (last (c ∷ s)) ≡ true
    → c ∷ s ≡ take (length s) (c ∷ s) ++ b'"' ∷ []
unsnoc c [] h = ap (λ (x : ℕ). x ∷ []) ((==_iff c b'"').0 h)
unsnoc c (d ∷ s) h = ap (◌∷◌ c) (unsnoc d s h)

-- the middle of a text of two bytes or more
slice-middle :
    (c d : ℕ) (s : Bytes) → slice 1 (length (c ∷ d ∷ s) - 1) (c ∷ d ∷ s) ≡ take (length s) (d ∷ s)
slice-middle c d s =
    let e : suc (suc (length s)) - 1 - 1 ≡ length s = omega arith in
    ap (λ (n : ℕ). take n (d ∷ s)) e

IsStrongEtag-sound : (token : Bytes) → validate_strong_etag token ≡ ok tt → IsStrongEtag token
unfolding validate_strong_etag
IsStrongEtag-sound [] h = cc
IsStrongEtag-sound (c ∷ []) h = cc
IsStrongEtag-sound (c ∷ d ∷ s) h =
    let h' = rw slice-middle at h in
    record {
      inner = take (length s) (d ∷ s);
      spelled = ground (arith, unsnoc d s);
      nonempty = ground (arith, length-take (length s) (d ∷ s));
      bounded = ground (arith, length-take (length s) (d ∷ s));
      bytes = ground (arith, all-etag_byte (take (length s) (d ∷ s)));
    }

middle-concat : (s : Bytes) (c : ℕ) → take (suc (length (s ++ c ∷ [])) - 1 - 1) (s ++ c ∷ []) ≡ s
middle-concat s c =
    let e : suc (length (s ++ c ∷ [])) - 1 - 1 ≡ length s =
      omega (arith, length-append {0} s (c ∷ [])) in
    rw e (take-concat s c)

IsStrongEtag-complete : (token : Bytes) → IsStrongEtag token → validate_strong_etag token ≡ ok tt
unfolding validate_strong_etag
IsStrongEtag-complete token e =
    rw
      (
        e.spelled,
        middle-concat e.inner b'"',
        last-concat (b'"' ∷ e.inner) b'"',
        All-etag_byte e.inner e.bytes,
      )
      (ground (arith, length-append e.inner (b'"' ∷ [])))

-- The validator check accepts exactly the texts that are one strong quoted entity tag.
pub IsStrongEtag-iff : (token : Bytes) → (validate_strong_etag token ≡ ok tt) ↔ IsStrongEtag token
IsStrongEtag-iff token = (IsStrongEtag-sound token, IsStrongEtag-complete token)

native_version-IsGraphic :
    (token : Bytes) → validate_native_version token ≡ ok tt → All IsGraphic token
unfolding validate_native_version
native_version-IsGraphic token h = ground (arith, all-graphic token)

native_version-ne-nil : (token : Bytes) → validate_native_version token ≡ ok tt → token ≢ []
unfolding validate_native_version
native_version-ne-nil [] h = cc
native_version-ne-nil (c ∷ s) h = ground arith

etag_bytes-IsGraphic : (s : Bytes) → All IsEtagByte s → All IsGraphic s
etag_bytes-IsGraphic [] h = tt
etag_bytes-IsGraphic (c ∷ s) h = (h.0.0, etag_bytes-IsGraphic s h.1)

-- A selector that passes validation holds graphic ASCII bytes only, 0x21 to 0x7e, and at least one,
-- whichever its kind.
pub validate-IsGraphic :
    (selector : SourceSelector)
    → validate selector ≡ ok tt
    → All IsGraphic (selector_token selector) × (selector_token selector ≢ [])
unfolding validate
validate-IsGraphic (native_version token) h =
    (native_version-IsGraphic token h, native_version-ne-nil token h)
validate-IsGraphic (validator_match token) h =
    let e = IsStrongEtag-sound token h in
    (
      rw e.spelled (
        (omega arith),
        All-append IsGraphic e.inner (b'"' ∷ []) (etag_bytes-IsGraphic e.inner e.bytes)
            (omega arith),
      ),
      ground arith,
    )

-- A selection that `bind` returned is accepted for a target and a key exactly when they are the
-- ones that it was bound to, for every operation.
pub validate_for-bind :
    (target key target' key' : Bytes) (selector : SourceSelector) (operation : StorageOperation)
    {selection : GuardedReadSelection}
    → bind target key selector ≡ ok selection
    → (validate_for selection target' key' operation ≡ ok tt) ↔ ((target ≡ target') × (key ≡ key'))
unfolding bind validate_for
validate_for-bind target key target' key' selector operation h =
    ground (arith, bytes_eq_iff target target', bytes_eq_iff key key')
