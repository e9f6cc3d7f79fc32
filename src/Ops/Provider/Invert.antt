-- ===== src/Ops/Provider/Invert.antt =====
-- What a step of an action did, where the whole action succeeds.
use storageprims.Prelude.{◌≡◌, refl, sym, ap, ◌∙◌, arith, Bool, true, false, Option, none, some}
use mathlib.Core.Path.{subst}
use storageprims.Core.Error.{StorageError, Result, ok, err, ok_or}
use storageprims.Ops.Budget.{InspectionLedger}
use storageprims.Ops.Provider.{
  State, Action, ◌>>=◌, Runtime, timed, refuse_with, lift, gets, pure, timed_out,
}

-- Each rule hands what it found to the rest of a proof, as variables.
module _ {W A B : Type 0} where
  -- a sequence that succeeds: its first step did, and so did the rest from there
  pub step-then {κ} :
      {P : Type κ} (step : Action W A) (rest : A → Action W B) (s t : State W) (b : B)
      → (step >>= rest) s ≡ (ok b, t)
      → ((a : A) (u : State W) → step s ≡ (ok a, u) → rest a u ≡ (ok b, t) → P)
      → P
  unfolding ◌>>=◌
  step-then {P = P} step rest s t b q found = go (step s) refl q
    where
      go :
          (o : Result A × State W)
          → step s ≡ o
          → (let (r, u) = o in
              elim r as (λ _. Result B × State W) [ ok a ↦ rest a u | err e ↦ (err e, u) ])
            ≡ (ok b, t)
          → P
      go (ok a, u) e q = found a u e q
      go (err x, u) e q = ground (arith, q)

  pub lift-then {κ} :
      {P : Type κ} (r : Result A) (rest : A → Action W B) (s t : State W) (b : B)
      → (lift r >>= rest) s ≡ (ok b, t)
      → ((a : A) → r ≡ ok a → rest a s ≡ (ok b, t) → P)
      → P
  unfolding ◌>>=◌
  lift-then (ok a) rest s t b q found = found a refl q
  lift-then (err x) rest s t b q found = ground (arith, q)

  pub gets-then :
      (f : InspectionLedger → A) (rest : A → Action W B) (s : State W) (o : Result B × State W)
      → (gets f >>= rest) s ≡ o
      → rest (f s.ledger) s ≡ o
  unfolding ◌>>=◌
  gets-then f rest s o q = q

  -- the same for an optional value that is there
  pub ok_or-then :
      (o : Option A) (a : A) (e : StorageError) (rest : A → Action W B) (s : State W)
      (r : Result B × State W)
      → (lift (ok_or o e) >>= rest) s ≡ r
      → o ≡ some a
      → rest a s ≡ r
  unfolding ◌>>=◌
  ok_or-then (some b) a e rest s r q h = subst (λ x. rest x s ≡ r) (ground (arith, h)) q
  ok_or-then none a e rest s r q h = ground (arith, h)

module _ {W A : Type 0} where
  pub lift-ok : (r : Result A) (s t : State W) (a : A) → lift r s ≡ (ok a, t) → (r ≡ ok a) × (t ≡ s)
  lift-ok r s t a q = (ap (λ x. x.0) q, sym (ap (λ x. x.1) q))

  -- a call that ends before the deadline ran on the world, and changes nothing else
  pub timed-ok :
      (runtime : Runtime W) (call : W → A × W) (s t : State W) (a : A)
      → timed runtime call s ≡ (ok a, t)
      → (v : W) × (runtime.timeout_at s.ledger.deadline call s.world ≡ (some a, v))
        × (t ≡ record { ledger = s.ledger; world = v })
  unfolding timed
  timed-ok runtime call s t a q = go (runtime.timeout_at s.ledger.deadline call s.world) refl q
    where
      go :
          (p : Option A × W)
          → runtime.timeout_at s.ledger.deadline call s.world ≡ p
          → ◌≡◌ {A = Result A × State W}
              (timed_out s.ledger p.0, record s { world = p.1 })
              (ok a, t)
          → (v : W) × (runtime.timeout_at s.ledger.deadline call s.world ≡ (some a, v))
            × (t ≡ record { ledger = s.ledger; world = v })
      go (none, v) e q = ground (arith, q)
      go (some b, v) e q = (v, e ∙ ap (λ x. (some x, v)) (ground (arith, q)), ground (arith, q))

  -- the value that an action ends with
  pub pure-ok : (a b : A) (s t : State W) → pure a s ≡ (ok b, t) → a ≡ b
  pure-ok a b s t q = ground (arith, q)

module _ {W : Type 0} where
  pub refuse_with-ok :
      (c : Bool) (error : InspectionLedger → StorageError) (s t : State W)
      → refuse_with c error s ≡ (ok tt, t)
      → (c ≡ false) × (t ≡ s)
  unfolding refuse_with
  refuse_with-ok true error s t q = ground (arith, q)
  refuse_with-ok false error s t q = (refl, sym (ap (λ x. x.1) q))
