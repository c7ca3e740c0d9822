-- ===== src/Options/Stays.antt =====
-- fileconf.c: what each option of `read_opt` leaves of the text.
use fcron.Prelude.{
  Option-elim, ℕ, ◌+◌, ◌≤◌, Bool, true, false, Option, [], length, drop, length-drop, ◌==◌, leb,
  arith, if-elim,
}
use fcron.Parser.{Text, Parsed, peek, next, get_num}
use fcron.Parser.Moves.{Within, Within-mono, get_num-Within}
use fcron.Parser.Values.{get_time}
use fcron.Save.{SavedLine}
use fcron.Strings.{assign_option_string, option_strlen}
use fcron.Options.{Caller, OptState, OptResult, or_handle_err, then_read}
use fcron.Options.Numbers.{get_tenths}
use fcron.Options.Actions.{
  need_brackets, opt_bool, string_option, time_option, next_tenths, put_lavg, second_lavg,
  third_lavg, ushrt_max, put_tzdiff, opt_tzdiff, opt_runfreq, opt_lavg, opt_mailto, opt_runas,
}
use fcron.Options.Reach.{length-next, get_bool-Within, get_tenths-Within, get_time-Within}

-- There is fuel, and at most `n` characters are left.
abbrev pub Stays : ℕ → OptResult → Type 0
Stays n (OptResult.rejected s) = Unit
Stays n OptResult.undefined = Unit
Stays n OptResult.out_of_fuel = ⊥
Stays n (OptResult.accepted s t) = length t ≤ n

pub or_handle_err-Stays {ℓ} :
    {A : Type ℓ} (n k : ℕ) (p : Parsed A) (s : OptState) (f : A → Text → OptResult)
    → Within n p
    → ((a : A) (t : Text) → length t ≤ n → Stays k (f a t))
    → Stays k (or_handle_err p s f)
or_handle_err-Stays n k (Parsed.failed b) s f h g = tt
or_handle_err-Stays n k Parsed.overrun s f h g = tt
or_handle_err-Stays n k Parsed.out_of_fuel s f h g = absurd h
or_handle_err-Stays n k (Parsed.got a t) s f h g = g a t h

pub then_read-Stays :
    (n k : ℕ) (r : OptResult) (f : OptState → Text → OptResult)
    → Stays n r
    → ((s : OptState) (t : Text) → length t ≤ n → Stays k (f s t))
    → Stays k (then_read r f)
then_read-Stays n k (OptResult.rejected s) f h g = tt
then_read-Stays n k OptResult.undefined f h g = tt
then_read-Stays n k OptResult.out_of_fuel f h g = absurd h
then_read-Stays n k (OptResult.accepted s t) f h g = g s t h

pub need_brackets-Stays :
    (n : ℕ) (b : Bool) (s : OptState) (r : OptResult) → Stays n r → Stays n (need_brackets b s r)
need_brackets-Stays n true s r h = h
need_brackets-Stays n false s r h = tt

pub opt_bool-Within : (b : Bool) (t : Text) → Within (length t) (opt_bool b t)
unfolding opt_bool
opt_bool-Within true t = get_bool-Within t
opt_bool-Within false t = omega arith

tzdiff-Stays : (n v : ℕ) (s : OptState) (t : Text) → length t ≤ n → Stays n (put_tzdiff v s t)
tzdiff-Stays n v s t h = if-elim (Stays n) s.has_file (λ file. h) (λ null. tt)

pub opt_tzdiff-Stays : (b : Bool) (s : OptState) (t : Text) → Stays (length t) (opt_tzdiff b s t)
unfolding opt_tzdiff
opt_tzdiff-Stays b s t = need_brackets-Stays (length t) b s _ (
    if-elim (Stays (length t)) (peek t == b'-')
      (λ negative.
        or_handle_err-Stays (length t) (length t) (get_num 24 [] (next t)) s _
          (Within-mono (length (next t)) (length t) (get_num 24 [] (next t)) (length-next t)
            (get_num-Within 24 [] (next t)))
          (λ i rest h. tzdiff-Stays (length t) _ s rest h))
      (λ positive.
        or_handle_err-Stays (length t) (length t) (get_num 24 [] t) s _ (get_num-Within 24 [] t)
          (λ i rest h. tzdiff-Stays (length t) i s rest h)))

drop-Stays : (n : ℕ) (t : Text) → length (drop n t) ≤ length t
drop-Stays n t = omega (arith, length-drop n t)

pub string_option-Stays :
    (put : Option Text → SavedLine) (s : OptState) (t : Text)
    → Stays (length t) (string_option put s t)
string_option-Stays put s t =
    Option-elim (Stays (length t)) (assign_option_string t).1 tt (λ n e. drop-Stays n t)

pub time_option-Stays :
    (put : ℕ → SavedLine) (zero_allowed : Bool) (s : OptState) (t : Text)
    → Stays (length t) (time_option put zero_allowed s t)
time_option-Stays put zero_allowed s t =
    or_handle_err-Stays (length t) (length t) (get_time (length t + 1) zero_allowed 0 t) _ _
      (get_time-Within (length t + 1) zero_allowed 0 t (omega arith)) (λ v rest h. h)

pub opt_mailto-Stays : (b : Bool) (s : OptState) (t : Text) → Stays (length t) (opt_mailto b s t)
unfolding opt_mailto
opt_mailto-Stays b s t = need_brackets-Stays (length t) b s _ (
    if-elim (Stays (length t)) (option_strlen t == 0) (λ empty. omega arith)
      (λ value.
        Option-elim (Stays (length t)) (assign_option_string t).1 tt (λ n e. drop-Stays n t)))

-- An argument that one reader takes.
pub read_one-Stays {ℓ} :
    {A : Type ℓ} (b : Bool) (s : OptState) (t : Text) (p : Parsed A) (f : A → OptState)
    → Within (length t) p
    → Stays
        (length t)
        (need_brackets b s (or_handle_err p s (λ a rest. OptResult.accepted (f a) rest)))
read_one-Stays b s t p f h =
    need_brackets-Stays (length t) b s _
      (or_handle_err-Stays (length t) (length t) p s _ h (λ a rest le. le))

pub opt_runfreq-Stays : (b : Bool) (s : OptState) (t : Text) → Stays (length t) (opt_runfreq b s t)
unfolding opt_runfreq
opt_runfreq-Stays b s t =
    if-elim (Stays (length t)) (s.line.runfreq == 1) (λ period. tt)
      (λ other. need_brackets-Stays (length t) b s _ (
        or_handle_err-Stays (length t) (length t) (get_num ushrt_max [] t) s _
          (get_num-Within ushrt_max [] t)
          (λ i rest le. if-elim (Stays (length t)) (leb i 1) (λ small. tt) (λ fine. le))))

next_tenths-Stays :
    (n : ℕ) (s : OptState) (t : Text) (f : ℕ → Text → OptResult)
    → length t ≤ n
    → ((i : ℕ) (u : Text) → length u ≤ n → Stays n (f i u))
    → Stays n (next_tenths s t f)
next_tenths-Stays n s t f le h =
    if-elim (Stays n) (peek t == b',')
      (λ comma.
        or_handle_err-Stays n n (get_tenths (next t)) s f
          (Within-mono (length (next t)) n (get_tenths (next t)) (omega (arith, length-next t))
            (get_tenths-Within (next t)))
          h)
      (λ other. tt)

third_lavg-Stays : (n : ℕ) (s : OptState) (t : Text) → length t ≤ n → Stays n (third_lavg s t)
unfolding third_lavg
third_lavg-Stays n s t le = next_tenths-Stays n s t _ le (λ i rest h. h)

second_lavg-Stays : (n : ℕ) (s : OptState) (t : Text) → length t ≤ n → Stays n (second_lavg s t)
unfolding second_lavg
second_lavg-Stays n s t le =
    next_tenths-Stays n s t _ le (λ i rest h. third_lavg-Stays n (put_lavg 1 i s) rest h)

pub opt_lavg-Stays : (b : Bool) (s : OptState) (t : Text) → Stays (length t) (opt_lavg b s t)
unfolding opt_lavg
opt_lavg-Stays b s t = need_brackets-Stays (length t) b s _ (
    or_handle_err-Stays (length t) (length t) (get_tenths t) s _ (get_tenths-Within t)
      (λ i rest h. second_lavg-Stays (length t) (put_lavg 0 i s) rest h))

pub opt_runas-Stays :
    (caller : Caller) (b : Bool) (s : OptState) (t : Text)
    → Stays (length t) (opt_runas caller b s t)
unfolding opt_runas
opt_runas-Stays caller b s t = need_brackets-Stays (length t) b s _ (
    Option-elim (Stays (length t)) (assign_option_string t).0 tt
      (λ user e. drop-Stays (length user) t))
