-- ===== src/Prelude/Split.antt =====
-- What `split_once` and `strip_prefix` find, and the texts on which they find it.
use storageprims.Prelude.Tests.{◌==◌, ==_iff, Bool-cases}
use storageprims.Prelude.Lists.{All}
use storageprims.Prelude.Text.{Bytes, strip_prefix, before, split_once}
use Prim.Native.Nat.{ℕ}
use mathlib.Core.Path.{◌≡◌, refl, ap, subst}
use mathlib.Core.Logic.{◌≢◌, inl, inr}
use mathlib.Core.Option.{Option, none, some}
use mathlib.Core.List.{[], ◌∷◌, ◌++◌}
use native.Mathlib.Omega.{arith}

abbrev pub Lacks : ℕ → Bytes → Type 0
Lacks b = All (λ c. c ≢ b)

pub strip_prefix_sound : (p s r : Bytes) → strip_prefix p s ≡ some r → s ≡ p ++ r
strip_prefix_sound [] s r h = cc
strip_prefix_sound (x ∷ p) [] r h = cc
strip_prefix_sound (x ∷ p) (c ∷ s) r h = ground (arith, strip_prefix_sound p s r)

pub strip_prefix-append : (p r : Bytes) → strip_prefix p (p ++ r) ≡ some r
strip_prefix-append [] r = refl
strip_prefix-append (x ∷ p) r = ground (arith, strip_prefix-append p r)

-- what a result of `split_once` says of the text
abbrev Splits : ℕ → Bytes → Option (Bytes × Bytes) → Type 0
Splits sep s none = Lacks sep s
Splits sep s (some (a, b)) = (s ≡ a ++ sep ∷ b) × Lacks sep a

before-Splits :
    (sep c : ℕ) (s : Bytes) (o : Option (Bytes × Bytes))
    → c ≢ sep
    → Splits sep s o
    → Splits sep (c ∷ s) (before c o)
before-Splits sep c s none ne h = (ne, h)
before-Splits sep c s (some (a, b)) ne h = (ap (◌∷◌ c) h.0, (ne, h.1))

split_once-Splits : (sep : ℕ) (s : Bytes) → Splits sep s (split_once sep s)
unfolding split_once
split_once-Splits sep [] = tt
split_once-Splits sep (c ∷ s) = elim (Bool-cases (c == sep)) [
  | inl e ↦ rw e (ap (λ (x : ℕ). x ∷ s) ((==_iff c sep).0 e), tt)
  | inr e ↦ rw e (before-Splits sep c s _ (ground arith) (split_once-Splits sep s))
]

pub split_once_sound :
    (sep : ℕ) (s a b : Bytes) → split_once sep s ≡ some (a, b) → (s ≡ a ++ sep ∷ b) × Lacks sep a
split_once_sound sep s a b h = subst (Splits sep s) h (split_once-Splits sep s)

pub split_once-none : (sep : ℕ) (s : Bytes) → split_once sep s ≡ none → Lacks sep s
split_once-none sep s h = subst (Splits sep s) h (split_once-Splits sep s)

pub split_once-append :
    (sep : ℕ) (a b : Bytes) → Lacks sep a → split_once sep (a ++ sep ∷ b) ≡ some (a, b)
unfolding split_once
split_once-append sep [] b h = ground arith
split_once-append sep (c ∷ a) b (hc, ha) = ground (arith, split_once-append sep a b ha)

pub split_once-eq-none : (sep : ℕ) (s : Bytes) → Lacks sep s → split_once sep s ≡ none
unfolding split_once
split_once-eq-none sep [] h = refl
split_once-eq-none sep (c ∷ s) (hc, hs) = ground (arith, split_once-eq-none sep s hs)
