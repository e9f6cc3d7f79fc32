-- ===== src/S3/Stream/Declared.antt =====
-- What the readers deliver, against the declared length, over any sequence of polls.
use storageprims.Prelude.{
  ℕ, ◌+◌, ◌≤◌, ◌≡◌, ◌≢◌, refl, sym, ◌∙◌, arith, min, Option, none, some, [], ◌∷◌, Bytes, length,
  true, false, Bool, zero, suc, Bool-cases, Option-cases, ◌==◌, inl, inr, if◌then◌else◌,
}
use mathlib.Core.Path.{subst}
use storageprims.S3.Stream.{
  Poll, pending, ready, failed, DeclaredLengthRead, new_declared, poll_read, end_checked, body_read,
  limited,
}

-- the bytes that a result delivers
abbrev pub size : Poll Bytes → ℕ
size (ready bytes) = length bytes
size _ = 0

-- a reader puts no more bytes into a buffer than it has room for
abbrev pub Fits {ℓ} : {R : Type ℓ} → (ℕ → R → Poll Bytes × R) → Type ℓ
Fits {R = R} poll = (capacity : ℕ) (r : R) → size ((poll capacity r).0) ≤ capacity

module _ {ℓ} {R : Type ℓ} (poll : ℕ → R → Poll Bytes × R) where
  -- a sequence of polls, and the bytes that they delivered
  pub data Reads (start : DeclaredLengthRead R) : ℕ → DeclaredLengthRead R → Type ℓ where
    no_reads : Reads start 0 start
    read :
        (n capacity : ℕ) (s : DeclaredLengthRead R)
        → Reads start n s
        → Reads start (n + size (poll_read poll capacity s).0) (poll_read poll capacity s).1

  -- what is delivered and what remains make the declared length
  abbrev Balances : ℕ → ℕ → Option ℕ → Type 0
  Balances total n none = ⊥
  Balances total n (some left) = n + left ≡ total

  end_checked-remaining :
      (s : DeclaredLengthRead R) (o : Poll Bytes × R)
      → (size (end_checked s o).0 ≡ 0) × ((end_checked s o).1.remaining ≡ s.remaining)
  end_checked-remaining s (pending, r) = (refl, refl)
  end_checked-remaining s (ready [], r) = (refl, refl)
  end_checked-remaining s (ready (c ∷ bytes), r) = (refl, refl)
  end_checked-remaining s (failed e, r) = (refl, refl)

  abbrev at : R → ℕ → Bool → DeclaredLengthRead R
  at r left c = record { reader = r; remaining = some left; checked_end = c }

  body_read-Balances :
      (total n left : ℕ) (s : DeclaredLengthRead R) (o : Poll Bytes × R)
      → n + left ≡ total
      → s.remaining ≡ some left
      → size o.0 ≤ left
      → Balances total (n + size (body_read left s o).0) (body_read left s o).1.remaining
  body_read-Balances total n left s (pending, r) h e b = ground (arith, h, e)
  body_read-Balances total n left s (ready [], r) h e b = ground (arith, h, e)
  body_read-Balances total n left s (ready (c ∷ bytes), r) h e b = omega (arith, h, b)
  body_read-Balances total n left s (failed x, r) h e b = ground (arith, h, e)

  module _ (fits : Fits poll) where
    at_end :
        (total n left : ℕ) (r : R) (c : Bool)
        → n + left ≡ total
        → let s = at r left c in
          let o = if c then (ready [], s) else end_checked s (poll 1 r) in
          Balances total (n + size o.0) o.1.remaining
    at_end total n left r true h = omega (arith, h)
    at_end total n left r false h =
        let (d, k) = end_checked-remaining (at r left false) (poll 1 r) in
        rw (d, k) (omega (arith, h))

    limited-Balances :
        (total n capacity left : ℕ) (r : R) (c : Bool)
        → n + left ≡ total
        → let s = at r left c in
          Balances total
            (n + size (limited poll capacity left s).0)
            (limited poll capacity left s).1.remaining
    limited-Balances total n capacity left r c h = elim (Bool-cases (left == 0)) [
      | inl z ↦ rw z (at_end total n left r c h)
      | inr z ↦ elim (Bool-cases (min capacity left == 0)) [
        | inl d ↦ rw (z, d) (omega (arith, h))
        | inr d ↦
            rw (z, d)
              (body_read-Balances total n left (at r left c) (poll (min capacity left) r) h refl
                (omega (arith, fits (min capacity left) r)))
      ]
    ]

    poll_read-Balances :
        (total n capacity : ℕ) (r : R) (o : Option ℕ) (c : Bool)
        → Balances total n o
        → let s : DeclaredLengthRead R = record { reader = r; remaining = o; checked_end = c } in
          Balances total
            (n + size (poll_read poll capacity s).0)
            (poll_read poll capacity s).1.remaining
    unfolding poll_read
    poll_read-Balances total n capacity r none c h = absurd h
    poll_read-Balances total n capacity r (some left) c h =
        limited-Balances total n capacity left r c h

    Reads-Balances :
        (total : ℕ) (r : R) (n : ℕ) (s : DeclaredLengthRead R)
        → Reads (new_declared r (some total)) n s
        → Balances total n s.remaining
    unfolding new_declared
    Reads-Balances total r _ _ no_reads = omega arith
    Reads-Balances total r _ _ (read n capacity s t) =
        poll_read-Balances total n capacity s.reader s.remaining s.checked_end
          (Reads-Balances total r n s t)

    -- However the reader answers, no sequence of polls delivers more than the declared length.
    pub Reads-new_declared :
        (total n : ℕ) (r : R) (s : DeclaredLengthRead R)
        → Reads (new_declared r (some total)) n s
        → n ≤ total
    Reads-new_declared total n r s t = elim (Option-cases s.remaining) [
      | inl e ↦ absurd (subst (Balances total n) e (Reads-Balances total r n s t))
      | inr (left, e) ↦
          let b : n + left ≡ total = subst (Balances total n) e (Reads-Balances total r n s t) in
          omega (arith, b)
    ]

    body_read-end :
        (left : ℕ) (s : DeclaredLengthRead R) (o : Poll Bytes × R)
        → (body_read left s o).0 ≢ ready []
    body_read-end left s (pending, r) q = ground (arith, q)
    body_read-end left s (ready [], r) q = ground (arith, q)
    body_read-end left s (ready (c ∷ bytes), r) q = ground (arith, q)
    body_read-end left s (failed x, r) q = ground (arith, q)

    limited-end :
        (capacity left : ℕ) (s : DeclaredLengthRead R)
        → 1 ≤ capacity
        → (limited poll capacity left s).0 ≡ ready []
        → left ≡ 0
    limited-end capacity zero s room q = refl
    limited-end capacity (suc left) s room q =
        let z : (suc left == 0) ≡ false = ground arith in
        let d : (min capacity (suc left) == 0) ≡ false = ground (arith, room) in
        let o = poll (min capacity (suc left)) s.reader in
        let b : (limited poll capacity (suc left) s).0 ≡ (body_read (suc left) s o).0 =
          rw (z, d) refl in
        absurd (body_read-end (suc left) s o (sym b ∙ q))

    poll_read-end :
        (total n capacity : ℕ) (r : R) (o : Option ℕ) (c : Bool)
        → Balances total n o
        → 1 ≤ capacity
        → let s : DeclaredLengthRead R = record { reader = r; remaining = o; checked_end = c } in
          (poll_read poll capacity s).0 ≡ ready [] → n ≡ total
    unfolding poll_read
    poll_read-end total n capacity r none c h room q = absurd h
    poll_read-end total n capacity r (some left) c h room q =
        omega (arith, h, limited-end capacity left (at r left c) room q)

    -- The end of the stream, a read of no bytes into a buffer with room, is reported only when the
    -- whole declared length has been delivered: a truncated body is never taken for a complete one.
    pub poll_read-new_declared :
        (total n capacity : ℕ) (r : R) (s : DeclaredLengthRead R)
        → Reads (new_declared r (some total)) n s
        → 1 ≤ capacity
        → (poll_read poll capacity s).0 ≡ ready []
        → n ≡ total
    poll_read-new_declared total n capacity r s t room q =
        poll_read-end total n capacity s.reader s.remaining s.checked_end
          (Reads-Balances total r n s t) room q
