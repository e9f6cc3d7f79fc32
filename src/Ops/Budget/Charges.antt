-- ===== src/Ops/Budget/Charges.antt =====
-- The ledger over a sequence of charges: what each accepted charge requires, and what holds after
-- any number of them.
use storageprims.Prelude.{ℕ, ◌+◌, ◌^◌, ◌≤◌, ◌<◌, suc, ◌≡◌, ◌↔◌, refl, arith, ◌∙◌, inl, inr}
use storageprims.Core.Error.{ProviderKind, StorageOperation, Result-cases, ok}
use storageprims.Ops.Budget.{
  InspectionBudget, InspectionLedger, validate_budget, new_ledger, check_deadline, request,
  admit_payload, release_payload, admit_output, max_budget_bytes, max_helper_requests,
  max_output_bytes,
}
use storageprims.Ops.Budget.Bounds.{IsFinite, validate_budget-IsFinite}

-- one accepted charge, at some reading of the clock, and the requests that it counts
pub data Charge (l m : InspectionLedger) : ℕ → Type 0 where
  requested : (now : ℕ) → request now l ≡ ok m → Charge l m 1
  admitted_payload : (now bytes : ℕ) → admit_payload now bytes l ≡ ok m → Charge l m 0
  released_payload : (bytes : ℕ) → release_payload bytes l ≡ m → Charge l m 0
  admitted_output : (bytes : ℕ) → admit_output bytes l ≡ ok m → Charge l m 0

pub data Charges (start : InspectionLedger) : ℕ → InspectionLedger → Type 0 where
  none_yet : Charges start 0 start
  then :
      (n k : ℕ) (l m : InspectionLedger)
      → Charges start n l
      → Charge l m k
      → Charges start (n + k) m

pub record IsWithinBudget (l : InspectionLedger) : Type 0 where
  pub requests : l.helper_requests ≤ l.budget.helper_requests
  pub payload : l.payload_bytes ≤ l.budget.payload_bytes
  pub output : l.output_bytes ≤ l.budget.output_bytes

-- The next request is accepted exactly before the deadline and while the budget has a request
-- left, and it counts one request and changes nothing else.
pub request_iff :
    (now : ℕ) (l m : InspectionLedger)
    → l.budget.helper_requests < 2 ^ 32
    → (request now l ≡ ok m) ↔ (
        (now < l.deadline)
        × (l.helper_requests < l.budget.helper_requests)
        × (m ≡ record l { helper_requests = suc l.helper_requests }))
unfolding request check_deadline
request_iff now l m fits = ground arith

-- one accepted charge keeps the ledger within its budget, and counts its requests
pub Kept : InspectionLedger → InspectionLedger → ℕ → Type 0
Kept l m k =
    IsWithinBudget m
    × (m.budget ≡ l.budget)
    × (m.deadline ≡ l.deadline)
    × (m.helper_requests ≡ l.helper_requests + k)

Charge-Kept : (l m : InspectionLedger) (k : ℕ) → Charge l m k → IsWithinBudget l → Kept l m k
unfolding Kept request check_deadline admit_payload release_payload admit_output
Charge-Kept l m _ (requested now eq) w = ground arith
Charge-Kept l m _ (admitted_payload now bytes eq) w = ground arith
Charge-Kept l m _ (released_payload bytes eq) w = ground arith
Charge-Kept l m _ (admitted_output bytes eq) w = ground arith

Charges-Kept : (s l : InspectionLedger) (n : ℕ) → Charges s n l → IsWithinBudget s → Kept s l n
unfolding Kept
Charges-Kept s l _ none_yet w = (w, refl, refl, omega arith)
Charges-Kept s last _ (then n k l m c d) w =
    let (wl, bl, dl, nl) = Charges-Kept s l n c w in
    let (wm, bm, dm, nm) = Charge-Kept l m k d wl in (wm, bm ∙ bl, dm ∙ dl, omega (arith, nm, nl))

-- what a new ledger holds
pub record IsFresh (now : ℕ) (budget : InspectionBudget) (s : InspectionLedger) : Type 0 where
  pub finite : IsFinite budget
  pub budgeted : s.budget ≡ budget
  pub deadlined : s.deadline ≡ now + budget.wall_time
  pub requested : s.helper_requests ≡ 0
  pub paid : s.payload_bytes ≡ 0
  pub sent : s.output_bytes ≡ 0

pub new_ledger-IsFresh :
    (clock_max now : ℕ) (provider : ProviderKind) (operation : StorageOperation)
    (budget : InspectionBudget) (s : InspectionLedger)
    → new_ledger clock_max now provider operation budget ≡ ok s
    → IsFresh now budget s
unfolding new_ledger
new_ledger-IsFresh clock_max now provider operation budget s eq =
    elim (Result-cases (validate_budget operation budget)) [
      | inl (_, v) ↦ ground (arith, v, (validate_budget-IsFinite operation budget).0 v)
      | inr (e, v) ↦ ground (arith, v)
    ]

-- A fresh ledger makes at most the requests of its budget and never more than the cap of 64, keeps
-- its payload and output within the budget and the caps, and keeps its deadline, whatever charges
-- and releases are accepted and however the clock reads.
pub Charges-new_ledger :
    (clock_max now n : ℕ) (provider : ProviderKind) (operation : StorageOperation)
    (budget : InspectionBudget) (s l : InspectionLedger)
    → new_ledger clock_max now provider operation budget ≡ ok s
    → Charges s n l
    → (n ≤ budget.helper_requests)
      × (n ≤ max_helper_requests)
      × (l.payload_bytes ≤ budget.payload_bytes)
      × (l.payload_bytes ≤ max_budget_bytes)
      × (l.output_bytes ≤ budget.output_bytes)
      × (l.output_bytes ≤ max_output_bytes)
      × (l.deadline ≡ now + budget.wall_time)
      × (now < l.deadline)
unfolding new_ledger Kept
Charges-new_ledger clock_max now n provider operation budget s l eq c =
    let f = new_ledger-IsFresh clock_max now provider operation budget s eq in
    let (w, b, d, k) = Charges-Kept s l n c (record {
      requests = ground (arith, f);
      payload = ground (arith, f);
      output = ground (arith, f);
    }) in
    ground (arith, f, w, b, d, k)
