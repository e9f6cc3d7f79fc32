-- ===== src/Ops/Entry/Source.antt =====
-- The start of the public operations: the ledger, the bound source and its size.
use storageprims.Prelude.{
  ℕ, ◌≤◌, ◌≡◌, refl, sym, ap, ◌∙◌, arith, Bool-cases, inl, inr, Option, none, some, Bytes, length,
  ◌==◌,
}
use mathlib.Core.Path.{subst}
use storageprims.Core.Error.{
  ProviderKind, StorageOperation, StorageError, Result, ok, err, ok_or, Result-cases,
}
use storageprims.Core.Source.{GuardedReadSelection, SourceReceipt, SourceSelector, bind, validate}
use storageprims.Ops.Budget.{InspectionBudget, InspectionLedger, new_ledger}
use storageprims.Ops.Budget.Bounds.{IsFinite}
use storageprims.Ops.Budget.Charges.{new_ledger-IsFresh}
use storageprims.Ops.Provider.{
  GuardedReadProvider, StorageProvider, require_guarded_reads, Runtime, State, Action,
}
use storageprims.Ops.Provider.Invert.{
  step-then, lift-then, gets-then, ok_or-then, lift-ok, timed-ok, pure-ok,
}
use storageprims.Ops.Provider.Keeps.{kept-budget}
use storageprims.Ops.Read.{observe_and_bind, selected_head, selected_size}
use storageprims.Ops.Read.Keeps.{observe_and_bind-Keeps, selected_size-Keeps}
use storageprims.Ops.Read.Serves.{CompletesCalls, Serves}
use storageprims.Ops.Entry.{opened, with_ledger, on_source}

bind-key :
    (identity key : Bytes) (selector : SourceSelector) (selection : GuardedReadSelection)
    → bind identity key selector ≡ ok selection
    → selection.key ≡ key
unfolding bind
bind-key identity key selector selection q = elim (Result-cases (validate selector)) [
  | inl (_, e) ↦ ground (arith, q, e)
  | inr (_, e) ↦ ground (arith, q, e)
]

ok_or-ok : {A : Type 0} (o : Option A) (e : StorageError) (a : A) → ok_or o e ≡ ok a → o ≡ some a
ok_or-ok none e a q = ground (arith, q)
ok_or-ok (some b) e a q = ground (arith, q)

module _ {W A : Type 0} where
  opened-then {κ} :
      {P : Type κ} (o : Result InspectionLedger) (body : Action W A) (w v : W) (r : A)
      → opened o body w ≡ (ok r, v)
      → ((l : InspectionLedger) (t : State W)
          → o ≡ ok l
          → body (record { ledger = l; world = w }) ≡ (ok r, t)
          → P)
      → P
  opened-then (err x) body w v r q found = ground (arith, q)
  opened-then (ok l) body w v r q found =
      let (o, t) = body (record { ledger = l; world = w }) in
      found l t refl (ap (λ x. (x, t)) (ap (λ x. x.0) q))

  -- a task that succeeds ran its body on a ledger with a finite budget
  pub with_ledger-then {κ} :
      {P : Type κ} (runtime : Runtime W) (clock_max : ℕ) (kind : ProviderKind)
      (operation : StorageOperation) (budget : InspectionBudget) (body : Action W A) (w v : W)
      (r : A)
      → with_ledger runtime clock_max kind operation budget body w ≡ (ok r, v)
      → ((s t : State W)
          → s.ledger.budget ≡ budget
          → IsFinite s.ledger.budget
          → body s ≡ (ok r, t)
          → P)
      → P
  unfolding with_ledger
  with_ledger-then runtime clock_max kind operation budget body w v r q found =
      let (now, u) = runtime.now w in
      opened-then (new_ledger clock_max now kind operation budget) body u v r q λ l t e k.
        let fresh = new_ledger-IsFresh clock_max now kind operation budget l e in
        found (record { ledger = l; world = u }) t fresh.budgeted
          (subst IsFinite (sym fresh.budgeted) fresh.finite) k

module _ {W R : Type 0} (runtime : Runtime W) (completes : CompletesCalls runtime)
    (p : GuardedReadProvider W R) (content : GuardedReadSelection → Bytes)
    (serves : Serves p content) where
  observe_and_bind-key :
      (key : Bytes) (s t : State W) (selection : GuardedReadSelection) (receipt : SourceReceipt)
      → observe_and_bind runtime p key s ≡ (ok (selection, receipt), t)
      → selection.key ≡ key
  unfolding observe_and_bind
  observe_and_bind-key key s t selection receipt q = step-then _ _ s t _ q λ _ a _ k.
      step-then _ _ a t _ k λ answer b _ k. lift-then _ _ b t _ k λ observation _ k.
        lift-then _ _ b t _ (gets-then _ _ b _ k) λ selector _ k. lift-then _ _ b t _ k λ bound e k.
          ap (λ x. x.0.key) (sym (pure-ok (bound, observation.receipt) (selection, receipt) b t k))
          ∙ bind-key p.guarded_read_target_identity key selector bound e

  pub selected_head-length :
      (selection : GuardedReadSelection) (s t : State W) (receipt : SourceReceipt) (size : ℕ)
      → selected_head runtime p selection s ≡ (ok receipt, t)
      → receipt.total_size ≡ some size
      → size ≡ length (content selection)
  unfolding selected_head
  selected_head-length selection s t receipt size q = step-then _ _ s t _ q λ _ b _ h.
      step-then _ _ b t _ h λ answer c f h.
        let (w, g, _) = timed-ok runtime (p.guarded_head selection) b c answer f in
        serves.head selection b.world w receipt size (
          completes _ b.ledger.deadline _ b.world w answer g
          ∙ ap (λ x. (x, w)) (lift-ok answer c t receipt h).0)

  -- the size of the selected source is the length of its content
  selected_size-length :
      (selection : GuardedReadSelection) (observation : SourceReceipt) (s t : State W) (size : ℕ)
      → selected_size runtime p selection observation s ≡ (ok size, t)
      → size ≡ length (content selection)
  unfolding selected_size
  selected_size-length selection observation s t size q = step-then _ _ s t _ q λ receipt a e k.
      selected_head-length selection s a receipt size e
        (ok_or-ok _ _ size (lift-ok _ a t size (gets-then _ _ a _ k)).0)

  -- an operation that succeeds on a source: it bound the key, and ran its body on a source that is
  -- not empty
  pub on_source-then {κ} :
      {A : Type 0} {P : Type κ} (clock_max : ℕ) (provider : StorageProvider W R)
      (operation : StorageOperation) (key : Bytes) (empty : A)
      (body : GuardedReadProvider W R → GuardedReadSelection → ℕ → Action W A) (s t : State W)
      (r : A)
      → on_source runtime clock_max provider operation key empty body s ≡ (ok r, t)
      → provider.guarded_reads ≡ some p
      → IsFinite s.ledger.budget
      → ((selection : GuardedReadSelection)
          → selection.key ≡ key
          → length (content selection) ≡ 0
          → empty ≡ r
          → P)
      → ((selection : GuardedReadSelection) (u : State W)
          → selection.key ≡ key
          → 1 ≤ length (content selection)
          → u.ledger.budget ≡ s.ledger.budget
          → IsFinite u.ledger.budget
          → body p selection (length (content selection)) u ≡ (ok r, t)
          → P)
      → P
  unfolding on_source require_guarded_reads
  on_source-then clock_max provider operation key empty body s t r q reads finite nothing found =
      step-then _ _ s t _ (ok_or-then _ p _ _ s _ q reads) λ (selection, observation) u e k.
        step-then _ _ u t _ k λ size v f k.
          let keyed = observe_and_bind-key key s u selection observation e in
          let sized = selected_size-length selection observation u v size f in
          let same_budget =
            kept-budget _ u v _ f (selected_size-Keeps runtime p selection observation)
            ∙ kept-budget _ s u _ e (observe_and_bind-Keeps runtime p key) in
          elim (Bool-cases (size == 0)) [
            | inl m ↦
                nothing selection keyed (ground (arith, m, sized)) (pure-ok empty r v t (rw m at k))
            | inr m ↦
                found selection v keyed (ground (arith, m, sized)) same_budget
                  (subst IsFinite (sym same_budget) finite)
                  (subst (λ x. body p selection x v ≡ (ok r, t)) sized (rw m at k))
          ]
