-- ===== src/Ops/Meter/Range.antt =====
-- What a range read spends: the payload reserved pays for its bytes and for the proof of the end.
use storageprims.Prelude.{
  ℕ, zero, suc, ◌+◌, ◌-◌, ◌≤◌, ◌<◌, ◌^◌, ◌≡◌, refl, sym, ap, arith, min, max, Bytes, [], ◌∷◌,
  length,
}
use mathlib.Core.Path.{subst}
use storageprims.Core.Error.{StorageOperation, StorageError, Result, ok, ok_or}
use storageprims.Core.Source.{GuardedReadSelection, checked_add}
use storageprims.Ops.Budget.{admit_payload, release_payload}
use storageprims.Ops.Provider.{
  GuardedReadResponse, GuardedReadProvider, State, Action, ◌>>=◌, Runtime, charge, lift,
}
use storageprims.Ops.Provider.Invert.{step-then, gets-then, lift-ok}
use storageprims.Ops.Read.{
  end_of, prove_end, guarded_request, range_bytes, guarded_range_bytes, line_probe,
}
use storageprims.Ops.Meter.{Meter, IsMeter, Spends, Costs}
use storageprims.Ops.Meter.Rules.{
  >>=-cases, >>=-Costs, >>=-free, if-Costs, refuse_with-Costs, charge-Costs, pure-Costs, lift-Costs,
  gets-Costs, weaken-Costs, clocked-then,
}
use storageprims.Ops.Meter.Reads.{
  free-then, admit_payload-pays, guarded_request-Costs, guarded_request-most, timed_read-Costs,
  timed_read-Spends, read_body-Costs,
}

end_of-nil : (o : StorageOperation) (chunk : Bytes) → end_of o chunk ≡ ok tt → length chunk ≡ 0
end_of-nil o [] q = refl
end_of-nil o (c ∷ chunk) q = ground (arith, q)

reserved_bytes :
    (requested reserved : ℕ) (e : StorageError)
    → ok_or (checked_add requested 1) e ≡ ok reserved
    → (reserved ≡ requested + 1) × (requested < 2 ^ 64)
reserved_bytes requested reserved e q = ground (arith, q)

module _ {W : Type 0} (meter : Meter W) where
  -- what follows a value that is there
  pub lifted-Costs :
      {A B : Type 0} (k n : ℕ) (r : Result A) (rest : A → Action W B)
      → ((a : A) → r ≡ ok a → Costs meter k n (rest a))
      → Costs meter k n (lift r >>= rest)
  lifted-Costs k n r rest found =
      >>=-cases meter k n (lift r) rest
        (λ s t x q. subst (λ u. Spends meter s u k n) (ap (λ o. o.1) q) (omega arith))
        λ s t a q.
          let (e, same) = lift-ok r s t a q in
          subst (λ u. Spends meter s (rest a u).1 k n) (sym same) ((found a e).spends s)

  -- released bytes were reserved
  release-Costs :
      (bytes : ℕ) → Costs meter 0 bytes (charge {W = W} (λ l. ok (release_payload bytes l)))
  unfolding charge release_payload
  release-Costs bytes = record { spends = λ s. omega arith }

pub ruleset metering =
    (>>=-free, pure-Costs, lift-Costs, gets-Costs, if-Costs, refuse_with-Costs, charge-Costs)

module _ {W R : Type 0} (runtime : Runtime W) (p : GuardedReadProvider W R) (meter : Meter W)
    (is_meter : IsMeter runtime p meter) where
  prove_end-Costs : (reader : R) → Costs meter 0 1 (prove_end runtime p reader)
  unfolding prove_end
  prove_end-Costs reader =
      >>=-Costs meter _ _ 0 1 0 0 (timed_read-Costs runtime p meter is_meter 1 reader) λ answer.
        free-then runtime p meter is_meter 0 0 _ _ (gets-Costs meter _)
          λ operation. lift-Costs meter _

  -- the proof of the end takes no byte
  prove_end-Spends :
      (reader : R) (s t : State W)
      → prove_end runtime p reader s ≡ (ok tt, t)
      → Spends meter s t 0 0
  unfolding prove_end
  prove_end-Spends reader s t q = step-then _ _ s t _ q λ (extra, next) u e k.
      let (r, here) = lift-ok _ u t _ (gets-then _ _ u _ k) in
      let (spent, _) = timed_read-Spends runtime p meter is_meter 1 reader next s u extra e in
      subst (λ u. Spends meter s u 0 0) (sym here) (omega (arith, spent, end_of-nil _ extra r))

  prove_end-then :
      {B : Type 0} (n : ℕ) (reader : R) (rest : Unit {0} → Action W B)
      → 1 ≤ n
      → Costs meter 0 n (rest tt)
      → Costs meter 0 n (prove_end runtime p reader >>= rest)
  prove_end-then n reader rest one paid =
      >>=-cases meter 0 n _ rest
        (λ s t x q. omega (
          arith,
          one,
          subst (λ u. Spends meter s u 0 1) (ap (λ o. o.1) q) ((prove_end-Costs reader).spends s),
        ))
        λ s t _ q. omega (arith, prove_end-Spends reader s t q, paid.spends t)

  guarded_request-then :
      {B : Type 0} (n : ℕ) (selection : GuardedReadSelection) (offset requested : ℕ)
      (rest : GuardedReadResponse R × ℕ → Action W B)
      → 1 ≤ requested
      → requested < 2 ^ 64
      → ((response : GuardedReadResponse R) (returned : ℕ)
          → returned ≤ requested
          → Costs meter 0 n (rest (response, returned)))
      → Costs meter 0 n (guarded_request runtime p selection offset requested >>= rest)
  guarded_request-then n selection offset requested rest one fits found =
      let costs = guarded_request-Costs runtime p meter is_meter selection offset requested in
      >>=-cases meter 0 n _ rest
        (λ s t x q.
          omega (arith, subst (λ u. Spends meter s u 0 0) (ap (λ o. o.1) q) (costs.spends s)))
        λ s t (response, returned) q. omega (
          arith,
          subst (λ u. Spends meter s u 0 0) (ap (λ o. o.1) q) (costs.spends s),
          (found response returned (
                guarded_request-most runtime p meter is_meter selection offset requested s t
                  response returned q one fits)).spends
              t,
        )

  range_bytes-Costs :
      (selection : GuardedReadSelection) (offset requested : ℕ)
      → 1 ≤ requested
      → Costs meter 0 0 (range_bytes runtime p selection offset requested)
  unfolding range_bytes
  range_bytes-Costs selection offset requested one =
      free-then runtime p meter is_meter 0 0 _ _ (gets-Costs meter _) λ operation.
        lifted-Costs meter 0 0 _ _ λ reserved e.
          let (all, fits) = reserved_bytes requested reserved _ e in
          clocked-then meter runtime p is_meter (λ now l. admit_payload now reserved l) 0 reserved _
            (λ now. admit_payload-pays reserved now)
            (guarded_request-then reserved selection offset requested _ one fits
              λ response returned most.
                free-then runtime p meter is_meter 0 reserved _ _ (gets-Costs meter _) λ chunk_size.
                  weaken-Costs meter (0 + 0) (returned - 0 + (reserved - returned)) 0 reserved _
                    (>>=-Costs meter _ _ 0 (returned - 0) 0 (reserved - returned)
                      (read_body-Costs runtime p meter is_meter returned returned
                        (max (min chunk_size returned) 1) [] response.reader)
                      λ (bytes, reader).
                        prove_end-then (reserved - returned) reader _ (omega (arith, all, most)) (
                          weaken-Costs meter (0 + 0) (reserved - returned + 0) 0
                            (reserved - returned) _
                            (>>=-Costs meter _ _ 0 (reserved - returned) 0 0
                              (release-Costs meter (reserved - returned)) λ _. pure-Costs meter _)
                            (omega arith) (omega arith)))
                    (omega arith) (omega (arith, all, most)))

  pub guarded_range_bytes-Costs :
      (selection : GuardedReadSelection) (offset requested : ℕ)
      → Costs meter 0 0 (guarded_range_bytes runtime p selection offset requested)
  unfolding guarded_range_bytes
  guarded_range_bytes-Costs selection offset zero = pure-Costs meter _
  guarded_range_bytes-Costs selection offset (suc requested) =
      range_bytes-Costs selection offset (suc requested) (omega arith)

  pub line_probe-Costs :
      (selection : GuardedReadSelection) (size : ℕ)
      → Costs meter 0 0 (line_probe runtime p selection size)
  unfolding line_probe
  line_probe-Costs selection size = search (metering, guarded_range_bytes-Costs) depth 16
