-- ===== src/Ops/Provider/Keeps.antt =====
-- Steps of an action that leave the ledger on its budget, and within it if it was within, whether
-- they succeed or fail, and sequences of them.
use storageprims.Prelude.{ℕ, ◌≡◌, refl, sym, ap, ◌∙◌, arith, Bool, true, false, if◌then◌else◌}
use mathlib.Core.Path.{subst}
use storageprims.Core.Error.{StorageError, Result, ok, err}
use storageprims.Ops.Budget.{
  InspectionLedger, request, admit_payload, release_payload, admit_output, check_deadline,
}
use storageprims.Ops.Budget.Bounds.{IsFinite}
use storageprims.Ops.Budget.Charges.{IsWithinBudget}
use storageprims.Ops.Provider.{
  State, Action, ◌>>=◌, Runtime, charged, charge, clocked, timed, refuse_with, lift, gets, pure,
}

pub record Follows (l m : InspectionLedger) : Type 0 where
  pub budget : m.budget ≡ l.budget
  pub deadline : m.deadline ≡ l.deadline
  pub provider : m.provider ≡ l.provider
  pub operation : m.operation ≡ l.operation
  pub within : IsWithinBudget l → IsWithinBudget m

pub Follows-refl : (l : InspectionLedger) → Follows l l
Follows-refl l = record {
  budget = refl;
  deadline = refl;
  provider = refl;
  operation = refl;
  within = λ w. w;
}

Follows-trans : (l m n : InspectionLedger) → Follows l m → Follows m n → Follows l n
Follows-trans l m n f g = record {
  budget = g.budget ∙ f.budget;
  deadline = g.deadline ∙ f.deadline;
  provider = g.provider ∙ f.provider;
  operation = g.operation ∙ f.operation;
  within = λ w. g.within (f.within w);
}

-- an action after which the ledger follows the one before
pub record Keeps {W A : Type 0} (action : Action W A) : Type 0 where
  pub follows : (s : State W) → Follows s.ledger (action s).1.ledger

module _ {W A : Type 0} where
  pub kept-budget :
      (action : Action W A) (s t : State W) (o : Result A)
      → action s ≡ (o, t)
      → Keeps action
      → t.ledger.budget ≡ s.ledger.budget
  kept-budget action s t o q k =
      let moved : (action s).1.ledger.budget ≡ t.ledger.budget =
        ap (λ (x : Result A × State W). x.1.ledger.budget) q in
      sym moved ∙ (k.follows s).budget

  pub kept-IsFinite :
      (action : Action W A) (s t : State W) (o : Result A)
      → action s ≡ (o, t)
      → Keeps action
      → IsFinite s.ledger.budget
      → IsFinite t.ledger.budget
  kept-IsFinite action s t o q k = subst IsFinite (sym (kept-budget action s t o q k))

-- a method of the ledger that keeps it in order
abbrev pub Charges : (InspectionLedger → Result InspectionLedger) → Type 0
Charges method = (l m : InspectionLedger) → method l ≡ ok m → Follows l m

module _ {W A B : Type 0} where
  pub >>=-Keeps :
      (step : Action W A) (rest : A → Action W B)
      → Keeps step
      → ((a : A) → Keeps (rest a))
      → Keeps (step >>= rest)
  unfolding ◌>>=◌
  >>=-Keeps step rest k l = record { follows = λ s. go s (step s) (k.follows s) }
    where
      go :
          (s : State W) (o : Result A × State W)
          → Follows s.ledger o.1.ledger
          → Follows s.ledger
              (let (r, u) = o in
                elim r as (λ _. Result B × State W) [
                  | ok a ↦ rest a u
                  | err e ↦ (err e, u)
                ]).1.ledger
      go s (ok a, u) f = Follows-trans s.ledger u.ledger _ f ((l a).follows u)
      go s (err x, u) f = f

module _ {W A : Type 0} where
  pub pure-Keeps : (a : A) → Keeps (pure {W = W} a)
  pure-Keeps a = record { follows = λ s. Follows-refl s.ledger }

  pub lift-Keeps : (r : Result A) → Keeps (lift {W = W} r)
  lift-Keeps r = record { follows = λ s. Follows-refl s.ledger }

  pub gets-Keeps : (f : InspectionLedger → A) → Keeps (gets {W = W} f)
  gets-Keeps f = record { follows = λ s. Follows-refl s.ledger }

  pub if-Keeps : (c : Bool) (x y : Action W A) → Keeps x → Keeps y → Keeps (if c then x else y)
  if-Keeps true x y k l = k
  if-Keeps false x y k l = l

  pub timed-Keeps : (runtime : Runtime W) (call : W → A × W) → Keeps (timed runtime call)
  unfolding timed
  timed-Keeps runtime call = record { follows = λ s. Follows-refl s.ledger }

module _ {W : Type 0} where
  pub refuse_with-Keeps :
      (c : Bool) (error : InspectionLedger → StorageError) → Keeps (refuse_with {W = W} c error)
  unfolding refuse_with
  refuse_with-Keeps true error = record { follows = λ s. Follows-refl s.ledger }
  refuse_with-Keeps false error = record { follows = λ s. Follows-refl s.ledger }

  charged-Follows :
      (l : InspectionLedger) (s : State W) (r : Result InspectionLedger)
      → ((m : InspectionLedger) → r ≡ ok m → Follows l m)
      → Follows l s.ledger
      → Follows l (charged r s).1.ledger
  charged-Follows l s (ok m) f g = f m refl
  charged-Follows l s (err e) f g = g

  pub charge-Keeps :
      (method : InspectionLedger → Result InspectionLedger)
      → Charges method
      → Keeps (charge {W = W} method)
  unfolding charge
  charge-Keeps method c = record {
    follows =
        λ s. charged-Follows s.ledger s (method s.ledger) (c s.ledger) (Follows-refl s.ledger);
  }

  pub clocked-Keeps :
      (runtime : Runtime W) (method : ℕ → InspectionLedger → Result InspectionLedger)
      → ((now : ℕ) → Charges (method now))
      → Keeps (clocked runtime method)
  unfolding clocked
  clocked-Keeps runtime method c = record {
    follows = λ s.
        let (now, w) = runtime.now s.world in
        charged-Follows s.ledger (record { ledger = s.ledger; world = w }) (method now s.ledger)
          (c now s.ledger) (Follows-refl s.ledger);
  }

pub request-Charges : (now : ℕ) → Charges (request now)
unfolding request check_deadline
request-Charges now l m q = ground arith

pub admit_payload-Charges : (bytes now : ℕ) → Charges (admit_payload now bytes)
unfolding admit_payload check_deadline
admit_payload-Charges bytes now l m q = ground arith

pub admit_output-Charges : (bytes : ℕ) → Charges (admit_output bytes)
unfolding admit_output
admit_output-Charges bytes l m q = ground arith

pub release_payload-Charges : (bytes : ℕ) → Charges (λ l. ok (release_payload bytes l))
unfolding release_payload
release_payload-Charges bytes l m q = ground arith
