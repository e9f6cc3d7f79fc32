-- ===== src/Ops/Meter/Rules.antt =====
-- What the steps of an action spend, and sequences of them.
use storageprims.Prelude.{ℕ, ◌+◌, ◌≤◌, ◌≡◌, refl, ap, arith, Bool, true, false, if◌then◌else◌}
use mathlib.Core.Path.{subst}
use storageprims.Core.Error.{StorageError, Result, ok, err}
use storageprims.Ops.Budget.{InspectionLedger}
use storageprims.Ops.Provider.{
  GuardedReadProvider, State, Action, ◌>>=◌, Runtime, charged, charge, clocked, timed, refuse_with,
  lift, gets, pure,
}
use storageprims.Ops.Meter.{Meter, Counts, IsMeter, Raises, Spends, Costs}

module _ {W : Type 0} (meter : Meter W) where
  module _ {A B : Type 0} (k n : ℕ) (step : Action W A) (rest : A → Action W B) where
    -- a sequence by what its first step does
    pub >>=-cases :
        ((s t : State W) (x : StorageError) → step s ≡ (err x, t) → Spends meter s t k n)
        → ((s t : State W) (a : A) → step s ≡ (ok a, t) → Spends meter s (rest a t).1 k n)
        → Costs meter k n (step >>= rest)
    unfolding ◌>>=◌
    >>=-cases failing going = record { spends = λ s. go s (step s) refl }
      where
        go :
            (s : State W) (o : Result A × State W)
            → step s ≡ o
            → Spends meter s
                (let (r, u) = o in
                  elim r as (λ _. Result B × State W) [ ok a ↦ rest a u | err e ↦ (err e, u) ]).1
                k
                n
        go s (ok a, u) q = going s u a q
        go s (err x, u) q = failing s u x q

  module _ {A B : Type 0} (step : Action W A) (rest : A → Action W B) where
    pub >>=-Costs :
        (k n j m : ℕ)
        → Costs meter k n step
        → ((a : A) → Costs meter j m (rest a))
        → Costs meter (k + j) (n + m) (step >>= rest)
    >>=-Costs k n j m c d =
        >>=-cases (k + j) (n + m) step rest
          (λ s t x q.
            omega (arith, subst (λ u. Spends meter s u k n) (ap (λ o. o.1) q) (c.spends s)))
          λ s t a q. omega (
            arith,
            subst (λ u. Spends meter s u k n) (ap (λ o. o.1) q) (c.spends s),
            (d a).spends t,
          )

  module _ {A : Type 0} where
    pub pure-Costs : (a : A) → Costs meter 0 0 (pure {W = W} a)
    pure-Costs a = record { spends = λ s. omega arith }

    pub lift-Costs : (r : Result A) → Costs meter 0 0 (lift {W = W} r)
    lift-Costs r = record { spends = λ s. omega arith }

    pub gets-Costs : (f : InspectionLedger → A) → Costs meter 0 0 (gets {W = W} f)
    gets-Costs f = record { spends = λ s. omega arith }

    pub if-Costs :
        (c : Bool) (x y : Action W A)
        → Costs meter 0 0 x
        → Costs meter 0 0 y
        → Costs meter 0 0 (if c then x else y)
    if-Costs true x y k l = k
    if-Costs false x y k l = l

    pub weaken-Costs :
        (k n j m : ℕ) (action : Action W A)
        → Costs meter k n action
        → k ≤ j
        → n ≤ m
        → Costs meter j m action
    weaken-Costs k n j m action c h l = record { spends = λ s. omega (arith, c.spends s, h, l) }

  -- steps that charge all that they spend
  pub >>=-free :
      {A B : Type 0} (step : Action W A) (rest : A → Action W B)
      → Costs meter 0 0 step
      → ((a : A) → Costs meter 0 0 (rest a))
      → Costs meter 0 0 (step >>= rest)
  >>=-free step rest = >>=-Costs step rest 0 0 0 0

  pub refuse_with-Costs :
      (c : Bool) (error : InspectionLedger → StorageError)
      → Costs meter 0 0 (refuse_with {W = W} c error)
  unfolding refuse_with
  refuse_with-Costs true error = record { spends = λ s. omega arith }
  refuse_with-Costs false error = record { spends = λ s. omega arith }

  charged-Spends :
      (k n : ℕ) (s t : State W) (r : Result InspectionLedger)
      → ((m : InspectionLedger) → r ≡ ok m → Spends meter s (record t { ledger = m }) k n)
      → Spends meter s t k n
      → Spends meter s (charged r t).1 k n
  charged-Spends k n s t (ok m) f g = f m refl
  charged-Spends k n s t (err e) f g = g

  pub charge-Costs :
      (method : InspectionLedger → Result InspectionLedger)
      → Raises method
      → Costs meter 0 0 (charge {W = W} method)
  unfolding charge
  charge-Costs method raises = record {
    spends = λ s.
        charged-Spends 0 0 s s (method s.ledger) (λ m q. omega (arith, raises s.ledger m q))
          (omega arith);
  }

  module _ {R : Type 0} (runtime : Runtime W) (p : GuardedReadProvider W R)
      (is_meter : IsMeter runtime p meter) where
    pub clocked-Costs :
        (method : ℕ → InspectionLedger → Result InspectionLedger)
        → ((now : ℕ) → Raises (method now))
        → Costs meter 0 0 (clocked runtime method)
    unfolding clocked
    clocked-Costs method raises = record {
      spends = λ s.
          let (now, w) = runtime.now s.world in
          let counted = is_meter.now s.world in
          charged-Spends 0 0 s (record { ledger = s.ledger; world = w }) (method now s.ledger)
            (λ m q. omega (arith, counted, raises now s.ledger m q)) (omega (arith, counted));
    }

    -- an accepted charge pays for what follows
    pub clocked-then :
        {B : Type 0} (method : ℕ → InspectionLedger → Result InspectionLedger) (k n : ℕ)
        (rest : Unit {0} → Action W B)
        → ((now : ℕ) (l m : InspectionLedger)
            → method now l ≡ ok m
            → (m.helper_requests ≡ l.helper_requests + k) × (m.payload_bytes ≡ l.payload_bytes + n))
        → Costs meter k n (rest tt)
        → Costs meter 0 0 (clocked runtime method >>= rest)
    unfolding clocked ◌>>=◌
    clocked-then method k n rest pays c = record {
      spends = λ s.
          let (now, w) = runtime.now s.world in
          go s (record { ledger = s.ledger; world = w }) (method now s.ledger)
            (is_meter.now s.world) refl (pays now s.ledger);
    }
      where
        go :
            (s t : State W) (r : Result InspectionLedger)
            → Counts meter s.world t.world 0 0
            → t.ledger ≡ s.ledger
            → ((m : InspectionLedger)
                → r ≡ ok m
                → (m.helper_requests ≡ s.ledger.helper_requests + k)
                  × (m.payload_bytes ≡ s.ledger.payload_bytes + n))
            → Spends meter s ((charged r >>= rest) t).1 0 0
        go s t (ok m) counted same paid =
            omega (arith, counted, paid m refl, c.spends (record t { ledger = m }))
        go s t (err x) counted same paid = omega (
          arith,
          counted,
          ap (λ (l : InspectionLedger). l.helper_requests) same,
          ap (λ (l : InspectionLedger). l.payload_bytes) same,
        )

    pub timed-Costs :
        {A : Type 0} (k n : ℕ) (call : W → A × W)
        → ((w : W) → Counts meter w (call w).1 k n)
        → Costs meter k n (timed runtime call)
    unfolding timed
    timed-Costs {A} k n call counts = record {
      spends =
          λ s. omega (arith, counts s.world, is_meter.timeout_at A s.ledger.deadline call s.world);
    }
