-- ===== src/JobQueue/Order.antt =====
-- database.c: `insert_nextexe` and the order of execution.
use fcron.Prelude.{
  ℕ, zero, suc, ◌+◌, ◌≤◌, ◌<◌, ◌≡◌, refl, sym, ap, ◌∙◌, Option, none, some, List, [], ◌∷◌, ◌++◌,
  take, drop, get_or, length, ltb, leb, ◌==◌, arith, All, le→leb, ◌⊎◌, Bool-cases, inl, inr,
}
use fcron.JobQueue.{remove_from, job_queue_remove, insert_from, start_at, insert_nextexe}

module _ (key : ℕ → ℕ) where
  -- In the order of `cl_nextexe`.
  abbrev pub IsSorted : List ℕ → Type 0
  IsSorted [] = Unit
  IsSorted (x ∷ xs) = All (λ y. key x ≤ key y) xs × IsSorted xs

  -- The queue `r` is `q` with the line put behind all jobs that are due no later than it, and
  -- before all jobs that are due after it.
  pub record Placed (line : ℕ) (q r : List ℕ) : Type 0 where
    pub before : List ℕ
    pub after : List ℕ
    pub split : q ≡ before ++ after
    pub joined : r ≡ before ++ line ∷ after
    pub earlier : All (λ j. key j ≤ key line) before
    pub later : All (λ j. key line < key j) after

  All-later :
      (k : ℕ) (a : ℕ) (xs : List ℕ) → k < a → All (λ y. a ≤ key y) xs → All (λ y. k < key y) xs
  All-later k a [] h s = tt
  All-later k a (x ∷ xs) h s = (omega arith, All-later k a xs h s.1)

  insert_from-Placed : (line : ℕ) (q : List ℕ) → IsSorted q → Placed line q (insert_from key line q)
  unfolding insert_from
  insert_from-Placed line [] s = record {
    before = [];
    after = [];
    split = refl;
    joined = refl;
    earlier = tt;
    later = tt;
  }
  insert_from-Placed line (j ∷ js) s = elim (Bool-cases (leb (key j) (key line))) [
    | inl e ↦
        let p = insert_from-Placed line js s.1 in
        record {
          before = j ∷ p.before;
          after = p.after;
          split = ap (λ l. j ∷ l) p.split;
          joined = rw e (ap (λ l. j ∷ l) p.joined);
          earlier = (ground arith, p.earlier);
          later = p.later;
        }
    | inr e ↦ record {
      before = [];
      after = j ∷ js;
      split = refl;
      joined = rw e;
      earlier = tt;
      later = (ground arith, All-later (key line) (key j) js (ground arith) s.0);
    }
  ]

  All-get :
      (a : ℕ) (xs : List ℕ) (p d : ℕ)
      → p < length xs
      → All (λ y. a ≤ key y) xs
      → a ≤ key (get_or xs p d)
  All-get a [] p d h s = absurd (omega arith)
  All-get a (x ∷ xs) zero d h s = s.0
  All-get a (x ∷ xs) (suc p) d h s = All-get a xs p d (omega arith) s.1

  -- Starting at an entry that is not later than the line, the loop finds the same place.
  insert_from-skip :
      (line : ℕ) (q : List ℕ) (p d : ℕ)
      → IsSorted q
      → p < length q
      → key (get_or q p d) ≤ key line
      → take p q ++ insert_from key line (drop p q) ≡ insert_from key line q
  insert_from-skip line q zero d s h k = refl
  insert_from-skip line [] (suc p) d s h k = absurd (omega arith)
  insert_from-skip line (j ∷ js) (suc p) d s h k =
      ap (λ l. j ∷ l) (insert_from-skip line js p d s.1 (omega arith) k) ∙ sym step
    where
      step : insert_from key line (j ∷ js) ≡ j ∷ insert_from key line js
      step =
          unfold insert_from in
          rw (le→leb (key j) (key line) (omega (arith, All-get (key j) js p d (omega arith) s.0)))

-- The position that the loop returns is that of an entry in front of the removed one.
remove_from-prev :
    (line : ℕ) (jprev : Option ℕ) (i : ℕ) (q : List ℕ) (k : ℕ)
    → (remove_from line jprev i q).1 ≡ some k
    → (jprev ≡ some k) ⊎ (k < i + length (remove_from line jprev i q).0)
unfolding remove_from
remove_from-prev line jprev i [] k e = cc
remove_from-prev line jprev i (j ∷ js) k e = elim (Bool-cases (j == line)) [
  | inl t ↦ ground arith
  | inr t ↦ ground (arith, remove_from-prev line (some i) (i + 1) js k)
]

prev_in :
    (line : ℕ) (q : List ℕ) (k : ℕ)
    → (job_queue_remove line q).1 ≡ some k
    → k < length (job_queue_remove line q).0
unfolding job_queue_remove
prev_in line q k e = ground (arith, remove_from-prev line none 0 q k)

-- The queue without the line.
abbrev pub others : ℕ → List ℕ → List ℕ
others line q = (job_queue_remove line q).0

module _ (key : ℕ → ℕ) (line : ℕ) where
  start_lem :
      (q : List ℕ) (jprev : Option ℕ)
      → IsSorted key q
      → ((k : ℕ) → jprev ≡ some k → k < length q)
      → let p = start_at key line q jprev in
        take p q ++ insert_from key line (drop p q) ≡ insert_from key line q
  unfolding start_at
  start_lem q none s h = refl
  start_lem q (some k) s h = elim (Bool-cases (ltb (key line) (key (get_or q k line)))) [
    | inl e ↦ rw e
    | inr e ↦ rw e (insert_from-skip key line q k line s (h k refl) (ground arith))
  ]

  -- The shortcut of `insert_nextexe`, to start at the entry in front of the line's old place, does
  -- not change the result: it is that of the plain insertion into the queue without the line.
  pub insert_nextexe-eq :
      (q : List ℕ)
      → IsSorted key (others line q)
      → insert_nextexe key line q ≡ insert_from key line (others line q)
  unfolding insert_nextexe
  insert_nextexe-eq [] s = unfold job_queue_remove remove_from insert_from in refl
  insert_nextexe-eq (j ∷ js) s =
      start_lem (others line (j ∷ js)) (job_queue_remove line (j ∷ js)).1 s (prev_in line (j ∷ js))

  -- If the other jobs of the queue are in order, `insert_nextexe` puts the line behind all those
  -- due no later than it and before all those due after it, and leaves the others as they were.
  pub insert_nextexe-Placed :
      (q : List ℕ)
      → IsSorted key (others line q)
      → Placed key line (others line q) (insert_nextexe key line q)
  insert_nextexe-Placed q s =
      rw (insert_nextexe-eq q s) (insert_from-Placed key line (others line q) s)
