-- ===== src/JobQueue/Invariant.antt =====
-- The invariant of the job queue: ordered by `cl_nextexe`, and no line twice.
use fcron.Prelude.{
  ℕ, ◌+◌, ◌≤◌, ◌≡◌, ◌≢◌, sym, Option, none, some, List, [], ◌∷◌, leb, ◌==◌, arith, All, Bool-cases,
  inl, inr,
}
use fcron.JobQueue.{remove_from, job_queue_remove, insert_from, insert_nextexe}
use fcron.JobQueue.Order.{IsSorted, others, insert_nextexe-eq}

abbrev pub IsDistinct : List ℕ → Type 0
IsDistinct [] = Unit
IsDistinct (x ∷ xs) = All (λ y. y ≢ x) xs × IsDistinct xs

All-insert_from :
    (P : ℕ → Type 0) (key : ℕ → ℕ) (line : ℕ) (q : List ℕ)
    → P line
    → All P q
    → All P (insert_from key line q)
unfolding insert_from
All-insert_from P key line [] p h = (p, tt)
All-insert_from P key line (j ∷ js) p h = elim (Bool-cases (leb (key j) (key line))) [
  | inl e ↦ rw e (h.0, All-insert_from P key line js p h.1)
  | inr e ↦ rw e (p, h)
]

module _ (line : ℕ) where
  All-remove :
      (P : ℕ → Type 0) (jprev : Option ℕ) (i : ℕ) (q : List ℕ)
      → All P q
      → All P (remove_from line jprev i q).0
  unfolding remove_from
  All-remove P jprev i [] h = tt
  All-remove P jprev i (j ∷ js) h = elim (Bool-cases (j == line)) [
    | inl e ↦ rw e h.1
    | inr e ↦ rw e (h.0, All-remove P (some i) (i + 1) js h.1)
  ]

  IsDistinct-rest :
      (jprev : Option ℕ) (i : ℕ) (q : List ℕ)
      → IsDistinct q
      → IsDistinct (remove_from line jprev i q).0
        × All (λ y. y ≢ line) (remove_from line jprev i q).0
  unfolding remove_from
  IsDistinct-rest jprev i [] h = (tt, tt)
  IsDistinct-rest jprev i (j ∷ js) h = elim (Bool-cases (j == line)) [
    | inl e ↦ let same : j ≡ line = ground arith in rw e (h.1, rw same at h.0)
    | inr e ↦
        let r = IsDistinct-rest (some i) (i + 1) js h.1 in
        rw e ((All-remove (λ y. y ≢ j) (some i) (i + 1) js h.0, r.0), (ground arith, r.1))
  ]

  IsSorted-rest :
      (key : ℕ → ℕ) (jprev : Option ℕ) (i : ℕ) (q : List ℕ)
      → IsSorted key q
      → IsSorted key (remove_from line jprev i q).0
  unfolding remove_from
  IsSorted-rest key jprev i [] h = tt
  IsSorted-rest key jprev i (j ∷ js) h = elim (Bool-cases (j == line)) [
    | inl e ↦ rw e h.1
    | inr e ↦ rw e (
      All-remove (λ y. key j ≤ key y) (some i) (i + 1) js h.0,
      IsSorted-rest key (some i) (i + 1) js h.1,
    )
  ]

  insert_from-IsSorted :
      (key : ℕ → ℕ) (q : List ℕ) → IsSorted key q → IsSorted key (insert_from key line q)
  unfolding insert_from
  insert_from-IsSorted key [] s = (tt, tt)
  insert_from-IsSorted key (j ∷ js) s = elim (Bool-cases (leb (key j) (key line))) [
    | inl e ↦ rw e (
      All-insert_from (λ y. key j ≤ key y) key line js (ground arith) s.0,
      insert_from-IsSorted key js s.1,
    )
    | inr e ↦ rw e ((ground arith, All-le (key line) (key j) js key (ground arith) s.0), s)
  ]
    where
      All-le :
          (k a : ℕ) (xs : List ℕ) (key : ℕ → ℕ)
          → k ≤ a
          → All (λ y. a ≤ key y) xs
          → All (λ y. k ≤ key y) xs
      All-le k a [] key h s = tt
      All-le k a (x ∷ xs) key h s = (omega arith, All-le k a xs key h s.1)

  insert_from-IsDistinct :
      (key : ℕ → ℕ) (q : List ℕ)
      → IsDistinct q
      → All (λ y. y ≢ line) q
      → IsDistinct (insert_from key line q)
  unfolding insert_from
  insert_from-IsDistinct key [] d f = (tt, tt)
  insert_from-IsDistinct key (j ∷ js) d f = elim (Bool-cases (leb (key j) (key line))) [
    | inl e ↦ rw e (
      All-insert_from (λ y. y ≢ j) key line js (λ p. f.0 (sym p)) d.0,
      insert_from-IsDistinct key js d.1 f.1,
    )
    | inr e ↦ rw e (f, d)
  ]

  IsDistinct-others :
      (q : List ℕ) → IsDistinct q → IsDistinct (others line q) × All (λ y. y ≢ line) (others line q)
  unfolding job_queue_remove
  IsDistinct-others q d = IsDistinct-rest none 0 q d

  -- `job_queue_remove` keeps the order and takes the line out: what is left is in order, has no
  -- line twice, and does not hold the removed line.
  pub job_queue_remove-IsDistinct :
      (key : ℕ → ℕ) (q : List ℕ)
      → IsSorted key q
      → IsDistinct q
      → IsSorted key (others line q)
        × IsDistinct (others line q)
        × All (λ y. y ≢ line) (others line q)
  unfolding job_queue_remove
  job_queue_remove-IsDistinct key q s d =
      let r = IsDistinct-others q d in (IsSorted-rest key none 0 q s, r.0, r.1)

  -- Whatever the new `cl_nextexe` of the line is, `insert_nextexe` leaves a queue that is in order
  -- and has no line twice, if the other jobs were in order and no line was there twice.
  pub insert_nextexe-IsSorted :
      (key : ℕ → ℕ) (q : List ℕ)
      → IsSorted key (others line q)
      → IsDistinct q
      → IsSorted key (insert_nextexe key line q) × IsDistinct (insert_nextexe key line q)
  insert_nextexe-IsSorted key q s d =
      let r = IsDistinct-others q d in
      rw (insert_nextexe-eq key line q s) (
        insert_from-IsSorted key (others line q) s,
        insert_from-IsDistinct key (others line q) r.0 r.1,
      )
