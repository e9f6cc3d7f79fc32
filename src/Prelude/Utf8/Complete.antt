-- ===== src/Prelude/Utf8/Complete.antt =====
-- A text is a prefix of a valid one exactly if its check is not a definite error.
use Prim.Native.Nat.{ℕ, zero, suc, ◌+◌, ◌≤◌}
use mathlib.Core.Path.{◌≡◌, refl}
use mathlib.Core.Logic.{inl, inr, ◌↔◌}
use mathlib.Core.Bool.{true, false}
use mathlib.Core.Option.{some}
use mathlib.Core.List.{[], ◌∷◌, ◌++◌}
use native.Mathlib.Omega.{arith}
use storageprims.Prelude.Tests.{within, Option-cases, Bool-cases}
use storageprims.Prelude.Text.{Bytes}
use storageprims.Prelude.Utf8.{
  Expect, boundary, more, lead, next, check_from, from_utf8, is_valid, has_error_len, utf8_ok,
}

-- the ranges of an expectation hold a byte
IsOpen : Expect → Type 0
IsOpen boundary = Unit
IsOpen (more lo hi left seen) = lo ≤ hi

lead-IsOpen : (b : ℕ) (e : Expect) → lead b ≡ some e → IsOpen e
unfolding IsOpen lead
lead-IsOpen b e h = ground arith

next-IsOpen : (left seen : ℕ) → IsOpen (next left seen)
unfolding IsOpen next
next-IsOpen zero seen = tt
next-IsOpen (suc left) seen = omega arith

-- a text that ends inside a sequence, or between two, is continued to a valid one
finish : (left seen : ℕ) → (rest : Bytes) × (is_valid (check_from (next left seen) rest) ≡ true)
unfolding check_from next
finish zero seen = ([], refl)
finish (suc left) seen = let (rest, e) = finish left (seen + 1) in (0x80 ∷ rest, ground (arith, e))

completes :
    (e : Expect) (s : Bytes)
    → IsOpen e
    → has_error_len (check_from e s) ≡ false
    → (rest : Bytes) × (is_valid (check_from e (s ++ rest)) ≡ true)
unfolding check_from IsOpen
completes boundary [] g h = ([], refl)
completes (more lo hi left seen) [] g h =
    let (rest, e) = finish left seen in (lo ∷ rest, ground (arith, e, g))
completes boundary (b ∷ s) g h = elim (Option-cases (lead b)) [
  | inl e ↦ ground (arith, e, h)
  | inr (f, e) ↦
      let (rest, v) = completes f s (lead-IsOpen b f e) (ground (arith, e, h)) in
      (rest, ground (arith, e, v))
]
completes (more lo hi left seen) (b ∷ s) g h = elim (Bool-cases (within lo hi b)) [
  | inl e ↦
      let (rest, v) = completes (next left seen) s (next-IsOpen left seen) (ground (arith, e, h)) in
      (rest, ground (arith, e, v))
  | inr e ↦ ground (arith, e, h)
]

prefix_of_valid :
    (e : Expect) (s rest : Bytes)
    → is_valid (check_from e (s ++ rest)) ≡ true
    → has_error_len (check_from e s) ≡ false
unfolding check_from
prefix_of_valid boundary [] rest h = refl
prefix_of_valid (more lo hi left seen) [] rest h = refl
prefix_of_valid boundary (b ∷ s) rest h = elim (Option-cases (lead b)) [
  | inl e ↦ ground (arith, e, h)
  | inr (f, e) ↦ ground (arith, e, prefix_of_valid f s rest (ground (arith, e, h)))
]
prefix_of_valid (more lo hi left seen) (b ∷ s) rest h = elim (Bool-cases (within lo hi b)) [
  | inl e ↦ ground (arith, e, prefix_of_valid (next left seen) s rest (ground (arith, e, h)))
  | inr e ↦ ground (arith, e, h)
]

-- A check ends without a definite error exactly on the prefixes of the valid texts.
pub has_error_len_iff :
    (s : Bytes)
    → (has_error_len (from_utf8 s) ≡ false) ↔ ((rest : Bytes) × (utf8_ok (s ++ rest) ≡ true))
unfolding from_utf8 utf8_ok
has_error_len_iff s =
    (completes boundary s (unfold IsOpen in tt), λ (rest, h). prefix_of_valid boundary s rest h)

-- the mark of three bytes in front changes nothing about the validity
pub utf8_ok-bom : (s : Bytes) → utf8_ok (0xEF ∷ 0xBB ∷ 0xBF ∷ s) ≡ utf8_ok s
unfolding utf8_ok from_utf8 check_from lead next
utf8_ok-bom s = refl

pub utf8_ok-first : (b : ℕ) (s : Bytes) → utf8_ok (b ∷ s) ≡ true → b ≤ 0xF4
unfolding utf8_ok from_utf8 check_from lead
utf8_ok-first b s h = ground (arith, h)
