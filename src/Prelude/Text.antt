-- ===== src/Prelude/Text.antt =====
-- Rust texts as their bytes. Messages and argument names stay shut under `text`.
use Prim.Native.Nat.{ℕ, ◌+◌}
use Prim.Native.Char.{code}
use Prim.Native.String.{String}
use mathlib.Core.Path.{◌≡◌}
use mathlib.Core.Logic.{◌↔◌}
use native.Mathlib.Omega.{arith}
use mathlib.Core.Bool.{Bool, true, false, ◌&&◌}
use mathlib.Core.Option.{Option, none, some}
use mathlib.Core.List.{List, [], ◌∷◌}
use storageprims.Prelude.Tests.{◌==◌, within, if◌then◌else◌}

abbrev pub Bytes : Type 0
Bytes = List ℕ

-- the code points of a literal, which are its bytes: every literal of the program is ASCII
abbrev pub codes : String → Bytes
codes String.[] = []
codes (String.◌∷◌ c s) = code c ∷ codes s

unfoldable pub text : String → Bytes
text s = codes s

unfoldable pub bytes_eq : Bytes → Bytes → Bool
bytes_eq [] [] = true
bytes_eq (a ∷ xs) (b ∷ ys) = a == b && bytes_eq xs ys
bytes_eq _ _ = false

pub bytes_eq_iff : (xs ys : Bytes) → (bytes_eq xs ys ≡ true) ↔ (xs ≡ ys)
unfolding bytes_eq
bytes_eq_iff [] [] = ground arith
bytes_eq_iff [] (b ∷ ys) = ground arith
bytes_eq_iff (a ∷ xs) [] = ground arith
bytes_eq_iff (a ∷ xs) (b ∷ ys) = ground (arith, bytes_eq_iff xs ys)

-- `a == Some(b)` on optional texts
unfoldable pub option_eq : Option Bytes → Bytes → Bool
option_eq none b = false
option_eq (some a) b = bytes_eq a b

pub option_eq_iff : (a : Option Bytes) (b : Bytes) → (option_eq a b ≡ true) ↔ (a ≡ some b)
unfolding option_eq
option_eq_iff none b = ground arith
option_eq_iff (some a) b = ground (arith, bytes_eq_iff a b)

unfoldable pub to_ascii_lowercase : ℕ → ℕ
to_ascii_lowercase c = if within b'A' b'Z' c then c + 32 else c

-- `eq_ignore_ascii_case`
unfoldable pub eq_ignore_ascii_case : Bytes → Bytes → Bool
eq_ignore_ascii_case [] [] = true
eq_ignore_ascii_case (a ∷ xs) (b ∷ ys) =
    to_ascii_lowercase a == to_ascii_lowercase b && eq_ignore_ascii_case xs ys
eq_ignore_ascii_case _ _ = false

-- `strip_prefix`
abbrev pub strip_prefix : Bytes → Bytes → Option Bytes
strip_prefix [] s = some s
strip_prefix (p ∷ ps) [] = none
strip_prefix (p ∷ ps) (c ∷ s) = if p == c then strip_prefix ps s else none

-- `split_once` at one byte
abbrev pub before : ℕ → Option (Bytes × Bytes) → Option (Bytes × Bytes)
before c none = none
before c (some (a, b)) = some (c ∷ a, b)

unfoldable pub split_once : ℕ → Bytes → Option (Bytes × Bytes)
split_once sep [] = none
split_once sep (c ∷ s) = if c == sep then some ([], s) else before c (split_once sep s)
