-- ===== src/Account/SerialQueue.antt =====
-- database.c: the count of jobs in `add_serial_job` and `run_serial_job`.
use fcron.Prelude.{
  some_inj, ℕ, ◌^◌, ◌≤◌, All, ◌+◌, ◌-◌, ◌<◌, ◌≡◌, ◌⊎◌, refl, ap, sym, ◌∙◌, subst, true, Option,
  none, some, List, [], ◌∷◌, ◌++◌, leb, arith, inl, inr, Bool-cases, take, drop, take-append-drop,
}
use fcron.Serial.{Serial, grow_size, resize_to, append, serial_put, serial_take}
use fcron.Serial.Fifo.{IsValid, contents, append-contents, append-IsValid, serial_take-contents}
use fcron.Serial.Resize.{grow, contents_full, contents-grow, resize-grow, grow-IsValid}
use fcron.State.{Exe, Fcron, Env}
use fcron.Line.{Line}
use fcron.Opt.{is, serial_sev, notice_notrun}
use fcron.Run.{fork, after_take, run_serial_job, add_numexe}
use fcron.Enqueue.{
  already_queued, add_serial_job, after_put, mail_if_notice, after_mail, mail_notrun,
}
use fcron.Account.{occurrences, occurrences-append, in_serial, running, IsAccounted}
use fcron.Account.Run.{
  one_for, run_queue_job-Started, numexe-add_numexe, exe_list_add-Added, fork-next, fork-last,
  occurrences-Added,
}

-- Two parts of a list hold together what the list holds.
occurrences_swap :
    (j k : ℕ) (a : List (Option ℕ)) → occurrences j (drop k a ++ take k a) ≡ occurrences j a
occurrences_swap j k a =
    let p = occurrences-append j (take k a) (drop k a) in
    let q : occurrences j (take k a ++ drop k a) ≡ occurrences j a =
      ap (occurrences j) (take-append-drop k a) in
    omega (arith, occurrences-append j (drop k a) (take k a), p, q)

-- Growing a full ring does not change how often a line is in it.
occurrences-grow :
    (j : ℕ) (s : Serial)
    → IsValid s
    → s.num ≡ s.array_size
    → occurrences j (contents (grow s)) ≡ occurrences j (contents s)
occurrences-grow j s v full =
    rw (contents-grow s v full, contents_full s v full)
      (occurrences_swap j (s.array_size - s.array_index) s.array
        ∙ sym (occurrences_swap j s.array_index s.array))

occurrences-append_line :
    (j line : ℕ) (s : Serial)
    → IsValid s
    → s.num < s.array_size
    → s.array_index + s.num < 2 ^ 15
    → occurrences j (contents (append line s)) ≡ occurrences j (contents s) + one_for line j
occurrences-append_line j line s v room small =
    rw (append-contents line s v room small)
      (occurrences-append j (contents s) (some line ∷ []) ∙ omega arith)

-- Twice the size of the ring fits a `short int`.
abbrev pub IsSmall : Serial → Type 0
IsSmall s = s.array_size ≤ 2 ^ 14

-- The ring with the line, if it was put there.
record Put (line : ℕ) (s t : Serial) : Type 0 where
  valid : IsValid t
  small : IsSmall t
  more : (j : ℕ) → occurrences j (contents t) ≡ occurrences j (contents s) + one_for line j

serial_put-Put :
    (queue_max line : ℕ) (s t : Serial)
    → IsValid s
    → IsSmall s
    → queue_max + 9 ≤ 2 ^ 14
    → serial_put queue_max line s ≡ some t
    → Put line s t
unfolding serial_put append resize_to
serial_put-Put queue_max line s t v small limit e = elim (Bool-cases (leb s.array_size s.num)) [
  | inr fits ↦
      let room : s.num < s.array_size = ground arith in
      let sum : s.array_index + s.num < 2 ^ 15 = omega (arith, v.index_in) in
      let same : append line s ≡ t = some_inj (rw (serial_put, fits) at e) in
      subst (Put line s) same (record {
        valid = append-IsValid line s v room sum;
        small = small;
        more = λ j. occurrences-append_line j line s v room sum;
      })
  | inl full ↦
      let all : s.num ≡ s.array_size = ground (arith, v.num_in) in
      let r = grow-IsValid s v in
      let room : (grow s).num < (grow s).array_size = omega (arith, r.1, r.2) in
      elim (Bool-cases (leb queue_max s.num)) [
        | inl no_more ↦ absurd (none_some (rw (serial_put, full, no_more) at e))
        | inr more ↦
            let below : s.num < queue_max = ground arith in
            let fits : s.array_size + grow_size < 2 ^ 15 = omega arith in
            let sum : (grow s).array_index + (grow s).num < 2 ^ 15 = omega arith in
            let same : append line (grow s) ≡ t =
              ap (append line) (sym (resize-grow s fits))
              ∙ some_inj (rw (serial_put, full, more) at e) in
            subst (Put line s) same (record {
              valid = append-IsValid line (grow s) r.0 room sum;
              small = omega arith;
              more = λ j.
                  occurrences-append_line j line (grow s) r.0 room sum
                  ∙ ap (λ n. n + one_for line j) (occurrences-grow j s v all);
            })
      ]
]
  where
    none_some : {x : Serial} → none ≡ some x → ⊥
    none_some h = cc

-- The state is accounted for, and no line and nothing of the serial queue has changed.
abbrev pub Kept : Fcron → Fcron → Type 0
Kept s t = IsAccounted t × (t.lines ≡ s.lines) × (t.serial ≡ s.serial)

fork-Kept : (s : Fcron) → IsAccounted s → Kept s (fork s).1
fork-Kept s a = go (s.forks) refl
  where
    go : (l : List (Option ℕ)) → s.forks ≡ l → Kept s (fork s).1
    go [] e = rw (fork-last s e) (a, refl, refl)
    go (r ∷ rest) e = rw (fork-next r rest s e) (
      record {
        exe_valid = a.exe_valid;
        exe_unlimited = a.exe_unlimited;
        serial_valid = a.serial_valid;
        lavg_valid = a.lavg_valid;
        counted = a.counted;
      },
      refl,
      refl,
    )

after_mail-Kept : (p : Option ℕ) (s : Fcron) → IsAccounted s → Kept s (after_mail (p, s))
unfolding after_mail
after_mail-Kept none s a = (a, refl, refl)
after_mail-Kept (some p) s a =
    let mailer : Exe = record { line = none; ctrl_pid = 0 } in
    let b = exe_list_add-Added mailer s a.exe_valid a.exe_unlimited in
    (
      record {
        exe_valid = b.valid;
        exe_unlimited = b.unlimited;
        serial_valid = rw b.serial_same a.serial_valid;
        lavg_valid = rw b.lavg_same a.lavg_valid;
        counted = λ j.
            rw (b.lines_same, b.serial_same, b.lavg_same)
              (omega (arith, a.counted j, occurrences-Added j mailer s _ b));
      },
      b.lines_same,
      b.serial_same,
    )

-- A mail about a job that has not run changes no line and no count.
pub mail_if_notice-Kept : (l : Line) (s : Fcron) → IsAccounted s → Kept s (mail_if_notice l s)
unfolding mail_if_notice mail_notrun
mail_if_notice-Kept l s a = elim (Bool-cases (is notice_notrun l.option)) [
  | inl e ↦
      let f = fork-Kept s a in
      let m = after_mail-Kept (fork s).0 (fork s).1 f.0 in
      rw (mail_if_notice, e) (m.0, m.1 ∙ f.1, m.2 ∙ f.2)
  | inr e ↦ rw (mail_if_notice, e) (a, refl, refl)
]

Put-IsAccounted :
    (line : ℕ) (s : Fcron) (ring : Serial)
    → IsAccounted s
    → Put line s.serial ring
    → IsAccounted (add_numexe line (record s { serial = ring }))
unfolding add_numexe
Put-IsAccounted line s ring a p = record {
  exe_valid = a.exe_valid;
  exe_unlimited = a.exe_unlimited;
  serial_valid = p.valid;
  lavg_valid = a.lavg_valid;
  counted = λ j.
      numexe-add_numexe line j (record s { serial = ring }) ∙ omega (arith, a.counted j, p.more j);
}

-- The outcome of `add_serial_job`: the line is queued already and nothing changes, or it waits once
-- more in the queue, or the queue is full and no line is counted.
abbrev pub AddSerial : Env → ℕ → Fcron → Fcron → Type 0
AddSerial env line s t =
    ((already_queued (is serial_sev (s.lines line).option) (s.lines line).numexe ≡ true) × (t ≡ s))
    ⊎ (((j : ℕ) → in_serial j t ≡ in_serial j s + one_for line j)
        ⊎ ((serial_put env.serial_queue_max line s.serial ≡ none)
            × ((j : ℕ) → (t.lines j).numexe ≡ (s.lines j).numexe)))

-- `add_serial_job` keeps the count of jobs, also where the queue grows or is full: a line that is
-- already queued leaves everything as it is, and any other waits once more in the queue, unless the
-- queue is full: then the count of every line is as it was. Where the serial queue is limited to at most
-- 16375 jobs and its array has at most 2^14 places, that stays so, and no `short int` of the ring wraps.
pub add_serial_job-IsAccounted :
    (env : Env) (line : ℕ) (s : Fcron)
    → IsAccounted s
    → IsSmall s.serial
    → env.serial_queue_max + 9 ≤ 2 ^ 14
    → let t = add_serial_job env line s in IsAccounted t × IsSmall t.serial × AddSerial env line s t
unfolding add_serial_job
add_serial_job-IsAccounted env line s a small limit =
    elim (Bool-cases (already_queued (is serial_sev (s.lines line).option) (s.lines line).numexe)) [
      | inl e ↦ rw (add_serial_job, e) (a, small, inl (refl, refl))
      | inr e ↦
          let eq : add_serial_job env line s
              ≡ after_put line s (serial_put env.serial_queue_max line s.serial) =
            rw (add_serial_job, e) in
          subst (λ t. IsAccounted t × IsSmall t.serial × AddSerial env line s t) (sym eq)
            (go (serial_put env.serial_queue_max line s.serial) refl)
    ]
  where
    go :
        (r : Option Serial)
        → serial_put env.serial_queue_max line s.serial ≡ r
        → let t = after_put line s r in IsAccounted t × IsSmall t.serial × AddSerial env line s t
    go none e =
        let m = mail_if_notice-Kept (s.lines line) s a in
        unfold after_put in (m.0, rw m.2 small, inr (inr (e, λ j. rw m.1)))
    go (some ring) e =
        let p =
          serial_put-Put env.serial_queue_max line s.serial ring a.serial_valid small limit e in
        unfold after_put add_numexe in
        (Put-IsAccounted line s ring a p, p.small, inr (inl (λ j. p.more j)))

-- An entry that is not NULL.
abbrev pub IsLine : Option ℕ → Type 0
IsLine none = ⊥
IsLine (some line) = Unit

-- The outcome of `run_serial_job`: the queue is empty and nothing changes, or its oldest line leaves it,
-- is one of the running jobs once more, and takes one of the places of serial jobs.
abbrev pub RunSerial : Fcron → Fcron → Type 0
RunSerial s t =
    ((s.serial.num ≡ 0) × (t ≡ s))
    ⊎ ((line : ℕ) × (contents s.serial ≡ some line ∷ contents t.serial)
        × ((j : ℕ) → running j t ≡ running j s + one_for line j)
        × (t.serial.running ≡ s.serial.running + 1))

-- `run_serial_job` keeps the count, if `fork` gives a process and no entry of the queue is NULL: the
-- oldest line of the queue leaves it and is a running job, one more of the serial ones, or the queue is
-- empty and nothing changes. No line changes, nor the count of any.
pub run_serial_job-IsAccounted :
    (p : ℕ) (rest : List (Option ℕ)) (s : Fcron)
    → IsAccounted s
    → All IsLine (contents s.serial)
    → s.forks ≡ some p ∷ rest
    → let t = run_serial_job s in IsAccounted t × RunSerial s t × (t.lines ≡ s.lines)
unfolding run_serial_job serial_take
run_serial_job-IsAccounted p rest s a lines e = elim (Bool-cases (leb 1 s.serial.num)) [
  | inr empty ↦
      rw (run_serial_job, serial_take, empty)
        (unfold after_take in (a, inl (ground arith, refl), refl))
  | inl more ↦
      let (c, run, v) = serial_take-contents s.serial a.serial_valid (ground arith) in
      go (serial_take s.serial).0 (serial_take s.serial).1 c run v
]
  where
    go :
        (line : Option ℕ) (ring : Serial)
        → contents s.serial ≡ line ∷ contents ring
        → ring.running ≡ s.serial.running + 1
        → IsValid ring
        → let t = after_take s (line, ring) in IsAccounted t × RunSerial s t × (t.lines ≡ s.lines)
    go none ring c run v = absurd (subst (All IsLine) c lines).0
    go (some line) ring c run v =
        let b = run_queue_job-Started line p rest s e a.exe_valid a.exe_unlimited in
        unfold after_take in
        (
          record {
            exe_valid = b.exe_valid;
            exe_unlimited = b.exe_unlimited;
            serial_valid = v;
            lavg_valid = rw b.lavg_same a.lavg_valid;
            counted = λ j.
                rw (b.lines_same, b.lavg_same)
                  (omega (arith, a.counted j, b.one_more j, ap (occurrences j) c));
          },
          inr (line, c, λ j. omega (arith, b.one_more j), run),
          b.lines_same,
        )
