-- ===== src/Prelude/Utf8.antt =====
-- `std::str::from_utf8`: the well-formed byte sequences of UTF-8, and how a check of them fails.
pub mod Complete
use Prim.Native.Nat.{ℕ, zero, suc, ◌+◌, ◌≤◌}
use mathlib.Core.Path.{◌≡◌}
use mathlib.Core.Logic.{inl, inr}
use mathlib.Core.Bool.{Bool, true, false}
use mathlib.Core.Option.{Option, none, some}
use mathlib.Core.List.{[], ◌∷◌, ◌++◌}
use native.Mathlib.Omega.{arith}
use storageprims.Prelude.Tests.{ltb, within, if◌then◌else◌, ◌==◌, Option-cases}
use storageprims.Prelude.Text.{Bytes}

-- `truncated` is an error with no `error_len`: the text ends inside a sequence
pub data Utf8Check : Type 0 where
  valid truncated : Utf8Check
  invalid : (error_len : ℕ) → Utf8Check

-- between two sequences, or inside one: the next byte's range, the continuation bytes behind it,
-- and the bytes seen
pub data Expect : Type 0 where
  boundary : Expect
  more : (lo hi left seen : ℕ) → Expect

pub lead : ℕ → Option Expect
lead b =
    if ltb b 0x80
    then some boundary
    else if within 0xC2 0xDF b
    then some (more 0x80 0xBF 0 1)
    else if b == 0xE0
    then some (more 0xA0 0xBF 1 1)
    else if b == 0xED
    then some (more 0x80 0x9F 1 1)
    else if within 0xE1 0xEF b
    then some (more 0x80 0xBF 1 1)
    else if b == 0xF0
    then some (more 0x90 0xBF 2 1)
    else if within 0xF1 0xF3 b
    then some (more 0x80 0xBF 2 1)
    else if b == 0xF4
    then some (more 0x80 0x8F 2 1)
    else none

pub next : ℕ → ℕ → Expect
next zero seen = boundary
next (suc left) seen = more 0x80 0xBF left (seen + 1)

pub check_from : Expect → Bytes → Utf8Check
check_from boundary [] = valid
check_from (more lo hi left seen) [] = truncated
check_from boundary (b ∷ s) = elim (lead b) [ none ↦ invalid 1 | some e ↦ check_from e s ]
check_from (more lo hi left seen) (b ∷ s) = elim (within lo hi b) [
  | true ↦ check_from (next left seen) s
  | false ↦ invalid seen
]

unfoldable pub from_utf8 : Bytes → Utf8Check
unfolding check_from lead next
from_utf8 = check_from boundary

abbrev pub is_valid : Utf8Check → Bool
is_valid valid = true
is_valid _ = false

-- `error_len().is_some()`
abbrev pub has_error_len : Utf8Check → Bool
has_error_len (invalid n) = true
has_error_len _ = false

unfoldable pub utf8_ok : Bytes → Bool
unfolding from_utf8
utf8_ok s = is_valid (from_utf8 s)

-- no sequence waits for an ASCII byte
IsSane : Expect → Type 0
IsSane boundary = Unit
IsSane (more lo hi left seen) = 0x80 ≤ lo

lead-IsSane : (b : ℕ) (e : Expect) → lead b ≡ some e → IsSane e
unfolding IsSane lead
lead-IsSane b e h = ground arith

next-IsSane : (left seen : ℕ) → IsSane (next left seen)
unfolding IsSane next
next-IsSane zero seen = tt
next-IsSane (suc left) seen = omega arith

check-ascii :
    (e : Expect) (s : Bytes) (c : ℕ)
    → IsSane e
    → suc c ≤ 0x80
    → is_valid (check_from e (s ++ c ∷ [])) ≡ is_valid (check_from e s)
unfolding check_from IsSane
check-ascii boundary [] c g h = unfold lead in ground arith
check-ascii (more lo hi left seen) [] c g h = ground arith
check-ascii boundary (b ∷ s) c g h = elim (Option-cases (lead b)) [
  | inl e ↦ ground arith
  | inr (f, e) ↦ ground (arith, check-ascii f s c (lead-IsSane b f e) h)
]
check-ascii (more lo hi left seen) (b ∷ s) c g h =
    ground (arith, check-ascii (next left seen) s c, next-IsSane left seen)

-- An ASCII byte behind a text changes nothing about its validity.
pub utf8_ok-ascii : (s : Bytes) (c : ℕ) → suc c ≤ 0x80 → utf8_ok (s ++ c ∷ []) ≡ utf8_ok s
unfolding utf8_ok IsSane
utf8_ok-ascii s c h = check-ascii boundary s c tt h
