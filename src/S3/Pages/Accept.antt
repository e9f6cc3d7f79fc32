-- ===== src/S3/Pages/Accept.antt =====
-- Which pages the checks accept.
use storageprims.Prelude.{
  ◌≡◌, ◌↔◌, refl, ap, arith, ◌∙◌, Option, none, some, List, [], ◌∷◌, ◌++◌, map, Bytes, inl, inr,
}
use storageprims.Core.Error.{Result-cases, ok}
use storageprims.S3.Keys.{strip_root_prefix}
use storageprims.S3.Keys.Root.{boundary, strip_root_prefix_iff}
use storageprims.S3.Pages.{Entries, listed, validate_list_page}

-- the entry that is projected to `rest`
abbrev pub under : Option Bytes → Bytes → Option Bytes
under root_prefix rest = some (boundary root_prefix ++ rest)

-- some projections, which put under the root are the entries
pub record IsUnder (root_prefix : Option Bytes) (keys : Entries) : Type 0 where
  pub rests : List Bytes
  pub entries : keys ≡ map (under root_prefix) rests

listed-cons :
    (root_prefix : Option Bytes) (entry : Option Bytes) (keys : Entries)
    → (listed root_prefix (entry ∷ keys) ≡ ok tt)
      ↔ ((rest : Bytes) × (entry ≡ under root_prefix rest) × (listed root_prefix keys ≡ ok tt))
unfolding listed
listed-cons root_prefix none keys = ground arith
listed-cons root_prefix (some key) keys = (
  λ q. elim (Result-cases (strip_root_prefix root_prefix key)) [
    | inl (r, e) ↦
        let k = (strip_root_prefix_iff root_prefix key r).0 e in
        (r, ap some k, ground (arith, q, e))
    | inr (x, e) ↦ ground (arith, q, e)
  ],
  λ (rest, q, l).
      let e = (strip_root_prefix_iff root_prefix key rest).1 (ground (arith, q)) in
      ground (arith, e, l),
)

listed-under :
    (root_prefix : Option Bytes) (rests : List Bytes)
    → listed root_prefix (map (under root_prefix) rests) ≡ ok tt
unfolding listed
listed-under root_prefix [] = refl
listed-under root_prefix (r ∷ rests) =
    (listed-cons root_prefix (under root_prefix r) _).1 (r, refl, listed-under root_prefix rests)

listed_sound :
    (root_prefix : Option Bytes) (keys : Entries)
    → listed root_prefix keys ≡ ok tt
    → IsUnder root_prefix keys
listed_sound root_prefix [] q = record { rests = []; entries = refl }
listed_sound root_prefix (entry ∷ keys) q =
    let (r, e, l) = (listed-cons root_prefix entry keys).0 q in
    let u = listed_sound root_prefix keys l in
    record { rests = r ∷ u.rests; entries = ground (arith, e, u.entries) }

-- A page under a configured root is accepted exactly when every entry has a key, and every key
-- is the root, a slash and some rest.
pub validate_list_page_iff :
    (root : Bytes) (keys : Entries)
    → (validate_list_page (some root) keys ≡ ok tt) ↔ IsUnder (some root) keys
unfolding validate_list_page
validate_list_page_iff root keys = (
  listed_sound (some root) keys,
  λ u. ap (listed (some root)) u.entries ∙ listed-under (some root) u.rests,
)
