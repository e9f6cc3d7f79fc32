-- ===== src/Prelude/Decimal.antt =====
-- `str::parse::<u64>`, and the printing of a number. A text that is parsed has an optional plus sign
-- and decimal digits, at least one, of a value within 64 bits.
use Prim.Native.Nat.{ℕ, zero, suc, ◌/◌, ◌%◌, ◌+◌, ◌-◌, ◌*◌, ◌^◌}
use mathlib.Core.Path.{◌≡◌}
use mathlib.Core.Logic.{◌≢◌}
use mathlib.Core.Bool.{true, false}
use mathlib.Core.Option.{Option, none, some}
use mathlib.Core.List.{[], ◌∷◌, ◌++◌}
use native.Mathlib.Omega.{arith}
use storageprims.Prelude.Tests.{within, leb, ltb, ◌==◌, if◌then◌else◌}
use storageprims.Prelude.Text.{Bytes}
use storageprims.Prelude.Split.{Lacks}

-- the value of digits behind a value
value : ℕ → Bytes → Option ℕ
value acc [] = if leb acc (2 ^ 64 - 1) then some acc else none
value acc (c ∷ s) = elim (within b'0' b'9' c) [
  | true ↦ value (acc * 10 + (c - b'0')) s
  | false ↦ none
]

digits : Bytes → Option ℕ
digits [] = none
digits (c ∷ s) = value 0 (c ∷ s)

unfoldable pub parse_u64 : Bytes → Option ℕ
unfolding value digits
parse_u64 [] = none
parse_u64 (c ∷ s) = if c == b'+' then digits s else digits (c ∷ s)

value-Lacks :
    (b acc n : ℕ) (s : Bytes) → within b'0' b'9' b ≡ false → value acc s ≡ some n → Lacks b s
unfolding value
value-Lacks b acc n [] d h = tt
value-Lacks b acc n (c ∷ s) d h = ground (arith, d, h, value-Lacks b (acc * 10 + (c - b'0')) n s d)

digits-Lacks : (b n : ℕ) (s : Bytes) → within b'0' b'9' b ≡ false → digits s ≡ some n → Lacks b s
unfolding digits
digits-Lacks b n [] d h = tt
digits-Lacks b n (c ∷ s) d h = value-Lacks b 0 n (c ∷ s) d h

-- a number holds no byte but digits and the sign
pub parse_u64-Lacks :
    (b n : ℕ) (s : Bytes) → within b'0' b'9' b ≡ false → b ≢ b'+' → parse_u64 s ≡ some n → Lacks b s
unfolding parse_u64
parse_u64-Lacks b n [] d ne h = tt
parse_u64-Lacks b n (c ∷ s) d ne h =
    ground (arith, d, ne, h, digits-Lacks b n s d, digits-Lacks b n (c ∷ s) d)

-- the digits of a number, on fuel of one round for each
shown : ℕ → ℕ → Bytes
shown zero n = []
shown (suc fuel) n =
    if ltb n 10 then (b'0' + n) ∷ [] else shown fuel (n / 10) ++ (b'0' + n % 10) ∷ []

-- `{}` of a `u64`, which has at most 20 digits
unfoldable pub display : ℕ → Bytes
unfolding shown
display n = shown 20 n
