-- ===== src/Schedule/Future.antt =====
-- database.c: what `set_next_exe` does to the daemon.
use fcron.Prelude.{
  not, ◌&&◌, ℕ, ◌+◌, ◌≤◌, ◌<◌, ◌≡◌, ◌≢◌, sym, ap, true, false, some, List, [], ◌∷◌, ltb, leb, ◌==◌,
  ==_iff, ==_refl, if◌then◌else◌, arith, Bool-cases, inl, inr, All,
}
use fcron.Opt.{is, is_td, is_dayand, random}
use fcron.Line.{Line}
use fcron.Calendar.{Tm}
use fcron.Search.{Search}
use fcron.Search.Ends.{run-search_fuel}
use fcron.JobQueue.{insert_nextexe}
use fcron.JobQueue.Order.{IsSorted, others}
use fcron.JobQueue.Invariant.{IsDistinct, job_queue_remove-IsDistinct, insert_nextexe-IsSorted}
use fcron.Clock.{Clock, Zone, switch_timezone, mktime_no_dst, sub_tzdiff, add_tzdiff}
use fcron.Clock.Zone.{back_if, back_if-switch_timezone}
use fcron.State.{Fcron, Env, put_line, nextexe_of, update}
use fcron.Schedule.{
  Mode, basetime_of, search_from, delay, settle, td_nextexe, set_next_exe, time_t_max, long_max,
}

-- What `localtime` promises: the fields are in range.
pub record InRange (t : Tm) : Type 0 where
  pub mon_in : t.mon ≤ 11
  pub mday_in : t.mday ≤ 31
  pub hour_in : t.hour ≤ 23
  pub min_in : t.min ≤ 59

abbrev pub IsClock : Clock → Type 0
IsClock c = (zone : Zone) (time : ℕ) → InRange (c.localtime zone time)

-- The order depends on the due times of the queue's lines only.
IsSorted-agree :
    (key key' : ℕ → ℕ) (line : ℕ) (q : List ℕ)
    → ((j : ℕ) → j ≢ line → key' j ≡ key j)
    → All (λ y. y ≢ line) q
    → IsSorted key q
    → IsSorted key' q
IsSorted-agree key key' line [] same away s = tt
IsSorted-agree key key' line (x ∷ xs) same away s =
    (all_agree xs away.1 s.0, IsSorted-agree key key' line xs same away.1 s.1)
  where
    all_agree :
        (ys : List ℕ)
        → All (λ y. y ≢ line) ys
        → All (λ y. key x ≤ key y) ys
        → All (λ y. key' x ≤ key' y) ys
    all_agree [] a h = tt
    all_agree (y ∷ ys) a h = (rw (same x away.0, same y a.0) h.0, all_agree ys a.1 h.1)

module _ (env : Env) (mode : Mode) (line : ℕ) (s : Fcron) where
  -- What the daemon is after `set_next_exe` with the due time `n`.
  scheduled : ℕ → Fcron
  scheduled n =
      let l = s.lines line in
      let s' = put_line line (record l { nextexe = n }) s in
      record s' {
        queue = insert_nextexe (nextexe_of s') line s.queue;
        zone = back_if env.orig_tz (switch_timezone s.zone l.tz);
      }

  -- The state after rescheduling: the line is due in the future, the job queue is in order and has
  -- no line twice, the other lines are as before, and TZ is as it was at the start.
  pub record Scheduled (t : Fcron) : Type 0 where
    pub later : s.now < nextexe_of t line
    pub sorted : IsSorted (nextexe_of t) t.queue
    pub distinct : IsDistinct t.queue
    pub others_same : (j : ℕ) → j ≢ line → t.lines j ≡ s.lines j
    pub zone_same : t.zone ≡ env.orig_tz

  line_other : (n j : ℕ) → j ≢ line → (scheduled n).lines j ≡ s.lines j
  unfolding scheduled
  line_other n j ne = elim (Bool-cases (line == j)) [
    | inl e ↦ absurd (ne (sym ((==_iff line j).0 e)))
    | inr e ↦ rw e
  ]

  nextexe_self : (n : ℕ) → nextexe_of (scheduled n) line ≡ n
  unfolding scheduled
  nextexe_self n = rw (nextexe_of, put_line, update, ==_refl line)

  module _ (sorted : IsSorted (nextexe_of s) s.queue) (distinct : IsDistinct s.queue)
      (zone : s.zone ≡ env.orig_tz) where
    scheduled-Scheduled : (n : ℕ) → s.now < n → Scheduled (scheduled n)
    scheduled-Scheduled n h =
        let removed = job_queue_remove-IsDistinct line (nextexe_of s) s.queue sorted distinct in
        let q =
          insert_nextexe-IsSorted line (nextexe_of (scheduled n)) s.queue
            (IsSorted-agree (nextexe_of s) (nextexe_of (scheduled n)) line (others line s.queue)
              (λ j ne. ap (λ l. l.nextexe) (line_other n j ne)) removed.2 removed.0)
            distinct in
        record {
          later = rw (nextexe_self n) h;
          sorted = unfold scheduled in q.0;
          distinct = unfold scheduled in q.1;
          others_same = line_other n;
          zone_same =
              unfold scheduled in rw zone (back_if-switch_timezone env.orig_tz (s.lines line).tz).0;
        }

module _ (env : Env) (zone : Zone) (now : ℕ) (l : Line) where
  -- The seconds that are added if the line has not the option `random`.
  plain_delay : ℕ
  plain_delay = if not (l.runfreq == 1) && ltb 0 l.jitter then env.scaled_rand l.jitter else 0

  delay-plain :
      (t : Tm) (n : ℕ) → is random l.option ≡ false → delay env zone now l t n ≡ some plain_delay
  unfolding delay plain_delay
  delay-plain t n nr = rw (delay, nr)

  -- The due time after the sanity check.
  due : Search → ℕ
  due r =
      let n =
        add_tzdiff ((mktime_no_dst env.clock zone r.tm).1 + plain_delay) (env.tzdiff l.file) in
      if leb n now then now + 5 else n

  due-later : (r : Search) → now < due r
  unfolding due
  due-later r =
      let n =
        add_tzdiff ((mktime_no_dst env.clock zone r.tm).1 + plain_delay) (env.tzdiff l.file) in
      elim (Bool-cases (leb n now)) [ inl e ↦ rw e (omega arith) | inr e ↦ rw e (ground arith) ]

  settle-due : (r : Search) → is random l.option ≡ false → settle env zone now l r ≡ some (due r)
  unfolding settle due
  settle-due r nr = rw (
    settle,
    delay-plain (mktime_no_dst env.clock zone r.tm).0 (mktime_no_dst env.clock zone r.tm).1 nr,
  )

  module _ (clock : IsClock env.clock) (da : is_dayand l.option ≡ true)
      (nr : is random l.option ≡ false) (once : (l.runfreq == 1) ≡ false) where
    search_from-next :
        (mode : Mode) (base : ℕ)
        → let t = env.clock.localtime zone base in
          search_from env zone now l mode base ≡ some (record t { min = t.min + 1; sec = 0 })
    unfolding search_from
    search_from-next mode base = rw (search_from, once) (ground arith)

    td_nextexe-later :
        (mode : Mode) → (n : ℕ) × (td_nextexe env zone now l mode ≡ some n) × (now < n)
    unfolding td_nextexe
    td_nextexe-later mode =
        let base = sub_tzdiff (basetime_of mode l now) (env.tzdiff l.file) in
        let t = env.clock.localtime zone base in
        let from = record t { min = t.min + 1; sec = 0 } in
        let c = clock zone base in
        let found =
          run-search_fuel l from da c.mon_in c.mday_in c.hour_in (omega (arith, c.min_in)) in
        (
          due found.0,
          rw (td_nextexe, search_from-next mode base, found.1) (settle-due found.0 nr),
          due-later found.0,
        )

-- The due time of a job based on the time up, counted from now.
abbrev freq_due : Line → ℕ → ℕ
freq_due l now = if l.timefreq == long_max then time_t_max else now + l.timefreq

-- If `localtime` gives times whose fields are in range, TZ is as at the daemon's start, and the queue
-- is in order and has no line twice, then `set_next_exe` schedules every line at given times that does not run once a period, has not the option `random`
-- and joins its day fields by "and": the search comes to an end, and afterwards the line is due in
-- the future, the queue is in order and has no line twice, the other lines are as they were, and TZ
-- is as it was at the start.
pub set_next_exe-td :
    (env : Env) (mode : Mode) (line : ℕ) (s : Fcron)
    → IsClock env.clock
    → IsSorted (nextexe_of s) s.queue
    → IsDistinct s.queue
    → s.zone ≡ env.orig_tz
    → is_td (s.lines line).option ≡ true
    → is_dayand (s.lines line).option ≡ true
    → is random (s.lines line).option ≡ false
    → ((s.lines line).runfreq == 1) ≡ false
    → (t : Fcron) × (set_next_exe env mode line s ≡ some t) × Scheduled env mode line s t
unfolding set_next_exe scheduled
set_next_exe-td env mode line s clock sorted distinct zone td da nr once =
    let l = s.lines line in
    let z = (switch_timezone s.zone l.tz).0 in
    let next = td_nextexe-later env z s.now l clock da nr once mode in
    (
      scheduled env mode line s next.0,
      rw (set_next_exe, td, next.1),
      scheduled-Scheduled env mode line s sorted distinct zone next.0 next.2,
    )
