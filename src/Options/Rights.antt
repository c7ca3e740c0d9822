-- ===== src/Options/Rights.antt =====
-- fileconf.c: options do not let a user who is not root run jobs as somebody else.
use fcron.Prelude.{
  ℕ, zero, suc, ◌+◌, ◌≡◌, refl, Bool, true, false, Option, none, some, [], ◌==◌, leb, length,
  if◌then◌else◌, if-elim,
}
use fcron.Parser.{Text, Parsed, peek, next, get_num}
use fcron.Save.{SavedLine}
use fcron.Strings.{assign_option_string, option_strlen, is_space}
use fcron.Options.{
  OptName, Caller, OptState, OptResult, or_handle_err, then_read, correct, init_default_line,
}
use fcron.Options.Names.{scan_name, opt_name_size}
use fcron.State.{uchar_max}
use fcron.Options.Numbers.{get_tenths, get_nice}
use fcron.Parser.Values.{get_time}
use fcron.Options.Actions.{
  need_brackets, ushrt_max, opt_bool, string_option, time_option, next_tenths, second_lavg,
  third_lavg, update_lavg, put_tzdiff, put_lavg, put_runas, change_line, opt_switch, opt_tzdiff,
  opt_timezone, opt_reset, opt_first, opt_runfreq, opt_lavg, opt_lavg_one, opt_until, opt_mailfrom,
  opt_mailto, opt_nice, opt_runas, opt_jitter, opt_interval, opt_unknown,
}
use fcron.Options.Loop.{act, lookup, act_by_name, close, read_option, read_options, read_opt}

-- The jobs of the line run with the rights of the fcrontab.
abbrev pub IsOwn : Caller → OptState → Type 0
IsOwn caller s = s.line.runas ≡ some caller.runas

-- The same of a state that `read_opt` leaves.
abbrev pub Leaves : (OptState → Type 0) → OptResult → Type 0
Leaves P (OptResult.rejected s) = P s
Leaves P OptResult.undefined = Unit
Leaves P OptResult.out_of_fuel = Unit
Leaves P (OptResult.accepted s t) = P s

module _ (P : OptState → Type 0) where
  or_handle_err-Leaves {ℓ} :
      {A : Type ℓ} (p : Parsed A) (s : OptState) (f : A → Text → OptResult)
      → P (correct s)
      → ((a : A) (t : Text) → Leaves P (f a t))
      → Leaves P (or_handle_err p s f)
  or_handle_err-Leaves (Parsed.failed b) s f h g = h
  or_handle_err-Leaves Parsed.overrun s f h g = tt
  or_handle_err-Leaves Parsed.out_of_fuel s f h g = tt
  or_handle_err-Leaves (Parsed.got a t) s f h g = g a t

  then_read-Leaves :
      (r : OptResult) (f : OptState → Text → OptResult)
      → Leaves P r
      → ((s : OptState) (t : Text) → P s → Leaves P (f s t))
      → Leaves P (then_read r f)
  then_read-Leaves (OptResult.rejected s) f h g = h
  then_read-Leaves OptResult.undefined f h g = tt
  then_read-Leaves OptResult.out_of_fuel f h g = tt
  then_read-Leaves (OptResult.accepted s t) f h g = g s t h

  need_brackets-Leaves :
      (b : Bool) (s : OptState) (r : OptResult)
      → P (correct s)
      → Leaves P r
      → Leaves P (need_brackets b s r)
  need_brackets-Leaves true s r h k = k
  need_brackets-Leaves false s r h k = h

  Option-Leaves {ℓ} :
      {A : Type ℓ} (o : Option A) (r : OptResult) (f : A → OptResult)
      → Leaves P r
      → ((a : A) → Leaves P (f a))
      → Leaves P (elim o [ none ↦ r | some a ↦ f a ])
  Option-Leaves none r f h g = h
  Option-Leaves (some a) r f h g = g a

  read_one-Leaves {ℓ} :
      {A : Type ℓ} (b : Bool) (s : OptState) (p : Parsed A) (f : A → OptState)
      → P (correct s)
      → ((a : A) → P (f a))
      → Leaves P (need_brackets b s (or_handle_err p s (λ a rest. OptResult.accepted (f a) rest)))
  read_one-Leaves b s p f h g =
      need_brackets-Leaves b s _ h (or_handle_err-Leaves p s _ h (λ a rest. g a))

module _ (caller : Caller) where
  tzdiff-IsOwn :
      (v : ℕ) (s : OptState) (t : Text) → IsOwn caller s → Leaves (IsOwn caller) (put_tzdiff v s t)
  tzdiff-IsOwn v s t h = if-elim (Leaves (IsOwn caller)) s.has_file (λ file. h) (λ null. tt)

  string-IsOwn :
      (put : Option Text → SavedLine) (s : OptState) (t : Text)
      → ((v : Option Text) → (put v).runas ≡ some caller.runas)
      → Leaves (IsOwn caller) (string_option put s t)
  string-IsOwn put s t h =
      let (v, len) = assign_option_string t in Option-Leaves (IsOwn caller) len _ _ (h v) (λ n. h v)

  time-IsOwn :
      (put : ℕ → SavedLine) (zero_allowed : Bool) (s : OptState) (t : Text)
      → ((v : ℕ) → (put v).runas ≡ some caller.runas)
      → Leaves (IsOwn caller) (time_option put zero_allowed s t)
  time-IsOwn put zero_allowed s t h =
      or_handle_err-Leaves (IsOwn caller) (get_time (length t + 1) zero_allowed 0 t) _ _ (h _)
        (λ v rest. h v)

  next_tenths-IsOwn :
      (s : OptState) (t : Text) (f : ℕ → Text → OptResult)
      → IsOwn caller s
      → ((i : ℕ) (u : Text) → Leaves (IsOwn caller) (f i u))
      → Leaves (IsOwn caller) (next_tenths s t f)
  next_tenths-IsOwn s t f h g =
      if-elim (Leaves (IsOwn caller)) (peek t == b',')
        (λ comma. or_handle_err-Leaves (IsOwn caller) (get_tenths (next t)) s f h g) (λ other. h)

  lavg-IsOwn :
      (b : Bool) (s : OptState) (t : Text) → IsOwn caller s → Leaves (IsOwn caller) (opt_lavg b s t)
  unfolding opt_lavg second_lavg third_lavg update_lavg change_line
  lavg-IsOwn b s t h = need_brackets-Leaves (IsOwn caller) b s _ h (
      or_handle_err-Leaves (IsOwn caller) (get_tenths t) s _ h (λ i u.
        next_tenths-IsOwn (put_lavg 0 i s) u _ h
          (λ j v. next_tenths-IsOwn (put_lavg 1 j (put_lavg 0 i s)) v _ h (λ k rest. h))))

  -- Only root may run jobs as somebody else.
  runas-IsOwn :
      (user : Text) (s : OptState)
      → caller.is_root ≡ false
      → IsOwn caller s
      → IsOwn caller (put_runas caller user s)
  runas-IsOwn user s not_root h = rw not_root h

  act-IsOwn :
      (o : OptName) (b : Bool) (s : OptState) (t : Text)
      → caller.is_root ≡ false
      → IsOwn caller s
      → Leaves (IsOwn caller) (act caller o b s t)
  unfolding act opt_switch opt_tzdiff opt_timezone opt_reset opt_first opt_runfreq opt_lavg_one
      opt_until opt_mailfrom opt_mailto opt_nice opt_runas opt_jitter opt_interval change_line
      update_lavg init_default_line
  act-IsOwn (OptName.switch x) b s t r h =
      or_handle_err-Leaves (IsOwn caller) (opt_bool b t) s _ h (λ v rest. h)
  act-IsOwn (OptName.interval x) b s t r h =
      if-elim (IsOwn caller) (s.line.runfreq == 1) (λ period. h) (λ other. h)
  act-IsOwn OptName.tzdiff b s t r h = need_brackets-Leaves (IsOwn caller) b s _ h (
      if-elim (Leaves (IsOwn caller)) (peek t == b'-')
        (λ negative.
          or_handle_err-Leaves (IsOwn caller) (get_num 24 [] (next t)) s _ h
            (λ i rest. tzdiff-IsOwn _ s rest h))
        (λ positive.
          or_handle_err-Leaves (IsOwn caller) (get_num 24 [] t) s _ h
            (λ i rest. tzdiff-IsOwn i s rest h)))
  act-IsOwn OptName.timezone b s t r h =
      need_brackets-Leaves (IsOwn caller) b s _ h
        (string-IsOwn (λ v. record s.line { tz = v }) s t (λ v. h))
  act-IsOwn OptName.reset b s t r h =
      or_handle_err-Leaves (IsOwn caller) (opt_bool b t) s _ h
        (λ v rest. if-elim (IsOwn caller) v (λ yes. refl) (λ no. h))
  act-IsOwn OptName.first b s t r h =
      need_brackets-Leaves (IsOwn caller) b s _ h
        (time-IsOwn (λ v. record s.line { first = v }) true s t (λ v. h))
  act-IsOwn OptName.runfreq b s t r h =
      if-elim (Leaves (IsOwn caller)) (s.line.runfreq == 1) (λ period. h)
        (λ other. need_brackets-Leaves (IsOwn caller) b s _ h (
          or_handle_err-Leaves (IsOwn caller) (get_num ushrt_max [] t) s _ h
            (λ i rest. if-elim (Leaves (IsOwn caller)) (leb i 1) (λ small. h) (λ fine. h))))
  act-IsOwn OptName.lavg b s t r h = lavg-IsOwn b s t h
  act-IsOwn OptName.lavg1 b s t r h = read_one-Leaves (IsOwn caller) b s (get_tenths t) _ h (λ i. h)
  act-IsOwn OptName.lavg5 b s t r h = read_one-Leaves (IsOwn caller) b s (get_tenths t) _ h (λ i. h)
  act-IsOwn OptName.lavg15 b s t r h =
      read_one-Leaves (IsOwn caller) b s (get_tenths t) _ h (λ i. h)
  act-IsOwn OptName.until b s t r h =
      need_brackets-Leaves (IsOwn caller) b s _ h
        (time-IsOwn (λ v. record s.line { until = v }) false s t (λ v. h))
  act-IsOwn OptName.mailfrom b s t r h =
      need_brackets-Leaves (IsOwn caller) b s _ h
        (string-IsOwn (λ v. record s.line { mailfrom = v }) s t (λ v. h))
  act-IsOwn OptName.mailto b s t r h = need_brackets-Leaves (IsOwn caller) b s _ h (
      if-elim (Leaves (IsOwn caller)) (option_strlen t == 0) (λ empty. h)
        (λ value. Option-Leaves (IsOwn caller) (assign_option_string t).1 _ _ h (λ n. h)))
  act-IsOwn OptName.nice b s t r h =
      read_one-Leaves (IsOwn caller) b s (get_nice caller.is_root t) _ h
        (λ i. if-elim (IsOwn caller) i.0 (λ forbidden. h) (λ fine. h))
  act-IsOwn OptName.runas b s t r h = need_brackets-Leaves (IsOwn caller) b s _ h (
      Option-Leaves (IsOwn caller) (assign_option_string t).0 _ _ h
        (λ user. runas-IsOwn user s r h))
  act-IsOwn OptName.jitter b s t r h =
      read_one-Leaves (IsOwn caller) b s (get_num uchar_max [] t) _ h (λ i. h)

  by_name-IsOwn :
      (name : Text) (b : Bool) (s : OptState) (t : Text)
      → caller.is_root ≡ false
      → IsOwn caller s
      → Leaves (IsOwn caller) (act_by_name caller name b s t)
  unfolding act_by_name opt_unknown
  by_name-IsOwn name b s t r h =
      Option-Leaves (IsOwn caller) (lookup name) _ _
        (if-elim (IsOwn caller) (s.line.runfreq == 1) (λ period. h) (λ other. h))
        (λ o. act-IsOwn o b s t r h)

  close-IsOwn :
      (b : Bool) (s : OptState) (t : Text) → IsOwn caller s → Leaves (IsOwn caller) (close b s t)
  unfolding close
  close-IsOwn false s t h = h
  close-IsOwn true s t h =
      if-elim (Leaves (IsOwn caller)) (peek t == b')') (λ bracket. h) (λ other. h)

  read_option-IsOwn :
      (s : OptState) (t : Text)
      → caller.is_root ≡ false
      → IsOwn caller s
      → Leaves (IsOwn caller) (read_option caller s t)
  unfolding read_option
  read_option-IsOwn s t r h =
      let (name, u) = scan_name opt_name_size t in
      if-elim (Leaves (IsOwn caller)) (peek u == b'(')
        (λ bracket.
          if-elim (Leaves (IsOwn caller)) (is_space (peek (next u))) (λ space. h)
            (λ fine.
              then_read-Leaves (IsOwn caller) (act_by_name caller name true s (next u)) _
                (by_name-IsOwn name true s (next u) r h) (λ s' v h'. close-IsOwn true s' v h')))
        (λ none_there.
          then_read-Leaves (IsOwn caller) (act_by_name caller name false s u) _
            (by_name-IsOwn name false s u r h) (λ s' v h'. close-IsOwn false s' v h'))

  read_options-IsOwn :
      (fuel : ℕ) (s : OptState) (t : Text)
      → caller.is_root ≡ false
      → IsOwn caller s
      → Leaves (IsOwn caller) (read_options fuel caller s t)
  unfolding read_options
  read_options-IsOwn zero s t r h = tt
  read_options-IsOwn (suc fuel) s t r h =
      then_read-Leaves (IsOwn caller) (read_option caller s t) _ (read_option-IsOwn s t r h)
        (λ s' u h'.
          if-elim (Leaves (IsOwn caller)) (peek u == b',')
            (λ comma. read_options-IsOwn fuel s' (next u) r h') (λ end. h'))

-- Where the user is not root, the options of a line or of the file leave the user its jobs run as:
-- the one whose rights the fcrontab has, if it was before, also where the options are refused.
pub read_opt-IsOwn :
    (caller : Caller) (s : OptState) (ptr : Text)
    → caller.is_root ≡ false
    → IsOwn caller s
    → Leaves (IsOwn caller) (read_opt caller s ptr)
unfolding read_opt
read_opt-IsOwn caller s ptr r h =
    let text = if peek ptr == b'!' then next ptr else ptr in
    read_options-IsOwn caller (length text + 1) s text r h
