-- ===== src/Options/Ends.antt =====
-- fileconf.c: `read_opt` comes to an end.
use fcron.Prelude.{
  Option-elim, ℕ, zero, suc, ◌+◌, ◌≤◌, ◌<◌, ◌≡◌, Bool, true, false, [], ◌∷◌, length, ◌==◌,
  if◌then◌else◌, arith, if-elim,
}
use fcron.Parser.{Text, peek, next, get_num}
use fcron.Parser.Moves.{length-skip_blanks, get_num-Within}
use fcron.Strings.{is_alnum, is_space}
use fcron.Options.{OptName, Caller, OptState, OptResult, then_read}
use fcron.Options.Names.{scan_name, opt_name_size}
use fcron.State.{uchar_max}
use fcron.Options.Numbers.{get_tenths, get_nice}
use fcron.Options.Actions.{
  opt_bool, opt_switch, opt_timezone, opt_reset, opt_first, opt_lavg_one, opt_until, opt_mailfrom,
  opt_nice, opt_jitter, opt_interval, opt_unknown,
}
use fcron.Options.Loop.{act, lookup, act_by_name, close, read_option, read_options, read_opt}
use fcron.Options.Reach.{length-next, get_tenths-Within, get_nice-Within}
use fcron.Options.Stays.{
  or_handle_err-Stays, then_read-Stays, need_brackets-Stays, opt_bool-Within, opt_tzdiff-Stays,
  string_option-Stays, time_option-Stays, opt_mailto-Stays, read_one-Stays, opt_runfreq-Stays,
  opt_lavg-Stays, opt_runas-Stays, Stays,
}

act-Stays :
    (caller : Caller) (o : OptName) (b : Bool) (s : OptState) (t : Text)
    → Stays (length t) (act caller o b s t)
unfolding act opt_switch opt_timezone opt_reset opt_first opt_lavg_one opt_until opt_mailfrom
    opt_nice opt_jitter opt_interval
act-Stays caller (OptName.switch x) b s t =
    or_handle_err-Stays (length t) (length t) (opt_bool b t) s _ (opt_bool-Within b t)
      (λ v rest le. le)
act-Stays caller (OptName.interval x) b s t = omega arith
act-Stays caller OptName.tzdiff b s t = opt_tzdiff-Stays b s t
act-Stays caller OptName.timezone b s t =
    need_brackets-Stays (length t) b s _ (string_option-Stays (λ v. record s.line { tz = v }) s t)
act-Stays caller OptName.reset b s t =
    or_handle_err-Stays (length t) (length t) (opt_bool b t) s _ (opt_bool-Within b t)
      (λ v rest le. le)
act-Stays caller OptName.first b s t =
    need_brackets-Stays (length t) b s _
      (time_option-Stays (λ v. record s.line { first = v }) true s t)
act-Stays caller OptName.runfreq b s t = opt_runfreq-Stays b s t
act-Stays caller OptName.lavg b s t = opt_lavg-Stays b s t
act-Stays caller OptName.lavg1 b s t = read_one-Stays b s t (get_tenths t) _ (get_tenths-Within t)
act-Stays caller OptName.lavg5 b s t = read_one-Stays b s t (get_tenths t) _ (get_tenths-Within t)
act-Stays caller OptName.lavg15 b s t = read_one-Stays b s t (get_tenths t) _ (get_tenths-Within t)
act-Stays caller OptName.until b s t =
    need_brackets-Stays (length t) b s _
      (time_option-Stays (λ v. record s.line { until = v }) false s t)
act-Stays caller OptName.mailfrom b s t =
    need_brackets-Stays (length t) b s _
      (string_option-Stays (λ v. record s.line { mailfrom = v }) s t)
act-Stays caller OptName.mailto b s t = opt_mailto-Stays b s t
act-Stays caller OptName.nice b s t =
    read_one-Stays b s t (get_nice caller.is_root t) _ (get_nice-Within caller.is_root t)
act-Stays caller OptName.runas b s t = opt_runas-Stays caller b s t
act-Stays caller OptName.jitter b s t =
    read_one-Stays b s t (get_num uchar_max [] t) _ (get_num-Within uchar_max [] t)

act_by_name-Stays :
    (caller : Caller) (name : Text) (b : Bool) (s : OptState) (t : Text)
    → Stays (length t) (act_by_name caller name b s t)
unfolding act_by_name opt_unknown
act_by_name-Stays caller name b s t =
    Option-elim (Stays (length t)) (lookup name) (omega arith) (λ o e. act-Stays caller o b s t)

scan_name-length : (room : ℕ) (t : Text) → length (scan_name room t).1 ≤ length t
unfolding scan_name
scan_name-length zero t = omega arith
scan_name-length (suc room) [] = omega arith
scan_name-length (suc room) (c ∷ cs) =
    if-elim (λ (p : Text × Text). length p.1 ≤ suc (length cs)) (is_alnum c)
      (λ letter. omega (arith, scan_name-length room cs)) (λ other. omega arith)

close-Stays : (n : ℕ) (b : Bool) (s : OptState) (t : Text) → length t ≤ n → Stays n (close b s t)
unfolding close
close-Stays n false s t le = le
close-Stays n true s t le =
    if-elim (Stays n) (peek t == b')') (λ bracket. omega (arith, length-next t)) (λ other. tt)

-- Behind a name, an option and what closes it.
named-Stays :
    (n : ℕ) (caller : Caller) (name : Text) (b : Bool) (s : OptState) (t : Text)
    → length t ≤ n
    → Stays n (then_read (act_by_name caller name b s t) (close b))
named-Stays n caller name b s t le =
    then_read-Stays (length t) n (act_by_name caller name b s t) (close b)
      (act_by_name-Stays caller name b s t) (λ s' u h. close-Stays n b s' u (omega arith))

Stays-mono : (n k : ℕ) (r : OptResult) → n ≤ k → Stays n r → Stays k r
Stays-mono n k (OptResult.rejected s) le h = tt
Stays-mono n k OptResult.undefined le h = tt
Stays-mono n k OptResult.out_of_fuel le h = h
Stays-mono n k (OptResult.accepted s t) le h = omega arith

read_option-Stays :
    (caller : Caller) (s : OptState) (t : Text) → Stays (length t) (read_option caller s t)
unfolding read_option
read_option-Stays caller s t =
    let (name, u) = scan_name opt_name_size t in
    let le = scan_name-length opt_name_size t in
    if-elim (Stays (length t)) (peek u == b'(')
      (λ bracket.
        if-elim (Stays (length t)) (is_space (peek (next u))) (λ space. tt)
          (λ fine.
            named-Stays (length t) caller name true s (next u) (omega (arith, le, length-next u))))
      (λ none_there. named-Stays (length t) caller name false s u le)

comma-length : (t : Text) → peek t == b',' ≡ true → length (next t) < length t
comma-length [] h = absurd cc
comma-length (c ∷ cs) h = omega arith

read_options-Stays :
    (fuel : ℕ) (caller : Caller) (s : OptState) (t : Text)
    → length t < fuel
    → Stays (length t) (read_options fuel caller s t)
unfolding read_options
read_options-Stays zero caller s t h = absurd (omega arith)
read_options-Stays (suc fuel) caller s t h =
    then_read-Stays (length t) (length t) (read_option caller s t) _ (read_option-Stays caller s t)
      (λ s' u le.
        if-elim (Stays (length t)) (peek u == b',')
          (λ comma.
            let shorter : length (next u) < length u = comma-length u comma in
            Stays-mono (length (next u)) (length t) (read_options fuel caller s' (next u))
              (omega arith) (read_options-Stays fuel caller s' (next u) (omega arith)))
          (λ end. omega (arith, length-skip_blanks u)))

-- The options of a line or of the file are read to an end, for any text and in any state: they are
-- refused, accepted with at most as much of the text left as there was, or something is read or
-- written that must not be.
pub read_opt-ends :
    (caller : Caller) (s : OptState) (ptr : Text) → Stays (length ptr) (read_opt caller s ptr)
unfolding read_opt
read_opt-ends caller s ptr =
    let text = if peek ptr == b'!' then next ptr else ptr in
    let le : length text ≤ length ptr =
      if-elim (λ (u : Text). length u ≤ length ptr) (peek ptr == b'!') (λ mark. length-next ptr)
        (λ other. omega arith) in
    Stays-mono (length text) (length ptr) (read_options (length text + 1) caller s text) le
      (read_options-Stays (length text + 1) caller s text (omega arith))
