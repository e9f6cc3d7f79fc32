-- ===== src/Ops/Read/Returns.antt =====
-- The read loop returns: on a reader that makes progress, before the deadline, it delivers as many
-- bytes as it was asked for.
use storageprims.Prelude.{
  ℕ, zero, suc, ◌+◌, ◌-◌, ◌≤◌, ◌<◌, ◌≡◌, refl, sym, ap, ◌∙◌, arith, min, Bool-cases, inl, inr,
  Option, some, [], ◌∷◌, ◌++◌, append_assoc, Bytes, length, length-append, ltb,
}
use mathlib.Core.Path.{subst}
use storageprims.Core.Error.{StorageOperation, Result, ok, err}
use storageprims.Ops.Budget.{InspectionLedger, check_deadline}
use storageprims.Ops.Provider.{
  done, GuardedReadProvider, Runtime, State, Action, ◌>>=◌, clocked, timed, timed_out, gets, lift,
}
use storageprims.Ops.Read.{check_clock, some_bytes, timed_read, read_body}

-- calls end in time, and the clock reads less than the deadline
pub record InTime {W : Type 0} (runtime : Runtime W) (deadline : ℕ) : Type 1 where
  pub early : (w : W) → (runtime.now w).0 < deadline
  pub ends :
      (A : Type 0) (call : W → A × W) (w : W)
      → runtime.timeout_at deadline call w ≡ (some (call w).0, (call w).1)

-- what one read of a reader with these bytes left delivers into a buffer
pub record Delivers {W R : Type 0} (p : GuardedReadProvider W R) (rest : R → Bytes) (capacity : ℕ)
    (reader : R) (w : W) : Type 0 where
  pub chunk : Bytes
  pub next : R
  pub after : W
  pub reads : p.read capacity reader w ≡ ((done chunk, next), after)
  pub is_front : rest reader ≡ chunk ++ rest next
  pub fits : length chunk ≤ capacity
  pub moves : 1 ≤ length (rest reader) → 1 ≤ length chunk

-- every read delivers, a byte at least while there are any
abbrev pub Progresses : {W R : Type 0} → GuardedReadProvider W R → (R → Bytes) → Type 0
Progresses {W} {R} p rest =
    (capacity : ℕ) (reader : R) (w : W) → 1 ≤ capacity → Delivers p rest capacity reader w

-- a step that succeeds, and what follows
then-ok :
    {W A B : Type 0} (step : Action W A) (rest : A → Action W B) (s t : State W) (a : A)
    (o : Result B × State W)
    → step s ≡ (ok a, t)
    → rest a t ≡ o
    → (step >>= rest) s ≡ o
unfolding ◌>>=◌
then-ok {W} {A} {B} step rest s t a o e f =
    ap
      (λ (x : Result A × State W). elim x.0 as (λ _. Result B × State W) [
        | ok a ↦ rest a x.1
        | err e ↦ (err e, x.1)
      ])
      e
    ∙ f

gets-ok :
    {W A B : Type 0} (f : InspectionLedger → A) (rest : A → Action W B) (s : State W)
    (o : Result B × State W)
    → rest (f s.ledger) s ≡ o
    → (gets f >>= rest) s ≡ o
unfolding ◌>>=◌
gets-ok f rest s o e = e

module _ {W R : Type 0} (runtime : Runtime W) (p : GuardedReadProvider W R) (rest : R → Bytes)
    (progress : Progresses p rest) (deadline : ℕ) (in_time : InTime runtime deadline) where
  -- the clock moves the world on, and no more
  clocked-ok :
      (s : State W)
      → s.ledger.deadline ≡ deadline
      → clocked runtime check_clock s
        ≡ (ok tt, record { ledger = s.ledger; world = (runtime.now s.world).1 })
  unfolding clocked check_deadline
  clocked-ok s e = ground (arith, in_time.early s.world, e)

  timed-ends :
      {A : Type 0} (call : W → A × W) (a : A) (v : W) (s : State W)
      → s.ledger.deadline ≡ deadline
      → call s.world ≡ (a, v)
      → timed runtime call s ≡ (ok a, record { ledger = s.ledger; world = v })
  unfolding timed
  timed-ends {A} call a v s e q =
      let t = in_time.ends A call s.world in
      let there =
        subst (λ k. runtime.timeout_at k call s.world ≡ (some (call s.world).0, (call s.world).1))
          (sym e) t in
      ap (λ (x : Option A × W). (timed_out s.ledger x.0, record s { world = x.1 }))
        (there ∙ ap (λ (x : A × W). (some x.0, x.1)) q)

  timed_read-Delivers :
      (capacity : ℕ) (reader : R) (s : State W) (d : Delivers p rest capacity reader s.world)
      → s.ledger.deadline ≡ deadline
      → timed_read runtime p capacity reader s
        ≡ (ok (d.chunk, d.next), record { ledger = s.ledger; world = d.after })
  unfolding timed_read
  timed_read-Delivers capacity reader s d e =
      then-ok (timed runtime (p.read capacity reader)) _ s
        (record { ledger = s.ledger; world = d.after }) (done d.chunk, d.next) _
        (timed-ends (p.read capacity reader) (done d.chunk, d.next) d.after s e d.reads)
        (gets-ok _ _ (record { ledger = s.ledger; world = d.after }) _ refl)

  some_bytes-ok :
      (o : StorageOperation) (chunk : Bytes) → 1 ≤ length chunk → some_bytes o chunk ≡ ok tt
  some_bytes-ok o [] h = absurd (omega (arith, h))
  some_bytes-ok o (c ∷ chunk) h = refl

  -- Where the clock reads less than the deadline, calls end, and every read of the reader delivers a
  -- byte at least while there are any, the loop returns on a reader that has the bytes: with
  -- the bytes up to the capacity, in their order, and with the reader behind them.
  pub read_body-returns :
      (fuel capacity scratch : ℕ) (bytes : Bytes) (reader : R) (s : State W)
      → s.ledger.deadline ≡ deadline
      → 1 ≤ scratch
      → length bytes ≤ capacity
      → capacity ≤ length bytes + length (rest reader)
      → capacity ≤ length bytes + fuel
      → (out : Bytes) × (next : R) × (v : W) × (bytes ++ rest reader ≡ out ++ rest next)
        × (length out ≡ capacity)
        × (read_body runtime p fuel capacity scratch bytes reader s
            ≡ (ok (out, next), record { ledger = s.ledger; world = v }))
  unfolding read_body
  read_body-returns zero capacity scratch bytes reader s e one low has fuelled =
      (bytes, reader, s.world, refl, omega (arith, low, fuelled), refl)
  read_body-returns (suc fuel) capacity scratch bytes reader s e one low has fuelled =
      elim (Bool-cases (ltb (length bytes) capacity)) [
        | inr m ↦ (bytes, reader, s.world, refl, ground (arith, m, low), rw m refl)
        | inl m ↦
            let early : State W = record { ledger = s.ledger; world = (runtime.now s.world).1 } in
            let room : 1 ≤ min (capacity - length bytes) scratch = ground (arith, m, one) in
            let d = progress (min (capacity - length bytes) scratch) reader early.world room in
            let moved = d.moves (ground (arith, m, has)) in
            let read : State W = record { ledger = s.ledger; world = d.after } in
            let l = length-append bytes d.chunk in
            let r = ap length d.is_front ∙ length-append d.chunk (rest d.next) in
            let (out, next, v, joined, len, q) =
              read_body-returns fuel capacity scratch (bytes ++ d.chunk) d.next read e one
                (omega (arith, l, d.fits, low)) (omega (arith, l, r, has))
                (omega (arith, l, moved, fuelled)) in
            let all =
              ap (λ x. bytes ++ x) d.is_front
              ∙ sym (append_assoc bytes d.chunk (rest d.next))
              ∙ joined in
            (
              out,
              next,
              v,
              all,
              len,
              rw m (
                  then-ok (clocked runtime check_clock) _ s early tt _ (clocked-ok s e) (
                    then-ok (timed_read runtime p (min (capacity - length bytes) scratch) reader) _
                      early read (d.chunk, d.next) _
                      (timed_read-Delivers (min (capacity - length bytes) scratch) reader early d e)
                      (gets-ok _ _ read _ (
                        then-ok (lift (some_bytes read.ledger.operation d.chunk)) _ read read tt _
                          (ap (λ x. (x, read)) (some_bytes-ok read.ledger.operation d.chunk moved))
                          q)))),
            )
      ]
