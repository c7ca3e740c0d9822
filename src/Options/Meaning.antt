-- ===== src/Options/Meaning.antt =====
-- fileconf.c and option.h: what the options that are on or off do to the bits of a line.
use fcron.Prelude.{◌≡◌, ◌≢◌, refl, ap, ◌∙◌, Bool, true, false, not, List, [], ◌∷◌, All}
use fcron.Bits.{Bitstring}
use fcron.Opt.{Flag, is, is_land, is_dayand}
use fcron.Opt.Laws.{IsOptions, is-set_opt, is-clear_opt, set_opt-IsOptions}
use fcron.Options.{Switch}
use fcron.Options.Names.{Change, apply_change, change_all, switch_changes}

-- Whether the option holds, by the macros that the daemon uses.
abbrev pub is_on : Switch → Bitstring → Bool
is_on Switch.serial opt = is Flag.serial opt
is_on Switch.serialonce opt = not (is Flag.serial_sev opt)
is_on Switch.lavgonce opt = not (is Flag.lavg_sev opt)
is_on Switch.exesev opt = is Flag.exe_sev opt
is_on Switch.bootrun opt = is Flag.bootrun opt
is_on Switch.rebootreset opt = is Flag.rebootreset opt
is_on Switch.runatreboot opt = is Flag.runatreboot opt
is_on Switch.runatresume opt = is Flag.runatresume opt
is_on Switch.runonce opt = is Flag.runonce opt
is_on Switch.strict opt = is Flag.strict opt
is_on Switch.noticenotrun opt = is Flag.notice_notrun opt
is_on Switch.lavgand opt = is_land opt
is_on Switch.lavgor opt = is Flag.lor opt
is_on Switch.mail opt = is Flag.mail opt
is_on Switch.forcemail opt = is Flag.mailzerolength opt
is_on Switch.erroronlymail opt = is Flag.erroronlymail opt
is_on Switch.dayand opt = is_dayand opt
is_on Switch.dayor opt = is Flag.dayor opt
is_on Switch.nolog opt = is Flag.nolog opt
is_on Switch.volatile opt = is Flag.volatile opt
is_on Switch.stdout opt = is Flag.stdout opt
is_on Switch.random opt = is Flag.random opt

-- The option has the value of a change that stands in no other one.
abbrev other : Flag → Flag
other Flag.freq = Flag.lavg
other _ = Flag.freq

other-ne : (f : Flag) → other f ≢ f
other-ne Flag.freq e = absurd cc
other-ne _ e = absurd cc

change-IsOptions : (x : Change) (opt : Bitstring) → IsOptions opt → IsOptions (apply_change x opt)
change-IsOptions (f, true) opt h = (set_opt-IsOptions opt h f).0
change-IsOptions (f, false) opt h = (set_opt-IsOptions opt h f).1

pub is-change :
    (f : Flag) (v : Bool) (opt : Bitstring) → IsOptions opt → is f (apply_change (f, v) opt) ≡ v
is-change f true opt h = (is-set_opt opt h f (other f) (other-ne f)).0
is-change f false opt h = (is-clear_opt opt h f (other f) (other-ne f)).0

is-change_ne :
    (f g : Flag) (v : Bool) (opt : Bitstring)
    → IsOptions opt
    → g ≢ f
    → is g (apply_change (f, v) opt) ≡ is g opt
is-change_ne f g true opt h ne = (is-set_opt opt h f g ne).1
is-change_ne f g false opt h ne = (is-clear_opt opt h f g ne).1

pub change_all-IsOptions :
    (xs : List Change) (opt : Bitstring) → IsOptions opt → IsOptions (change_all xs opt)
unfolding change_all
change_all-IsOptions [] opt h = h
change_all-IsOptions (x ∷ xs) opt h =
    change_all-IsOptions xs (apply_change x opt) (change-IsOptions x opt h)

-- Changes leave the options alone that they do not name.
pub is-change_all_ne :
    (g : Flag) (xs : List Change) (opt : Bitstring)
    → IsOptions opt
    → All (λ (x : Change). g ≢ x.0) xs
    → is g (change_all xs opt) ≡ is g opt
unfolding change_all
is-change_all_ne g [] opt h ne = refl
is-change_all_ne g ((f, v) ∷ xs) opt h ne =
    is-change_all_ne g xs (apply_change (f, v) opt) (change-IsOptions (f, v) opt h) ne.1
    ∙ is-change_ne f g v opt h ne.0

switch-value :
    (x : Switch) (v : Bool) (opt : Bitstring)
    → IsOptions opt
    → is_on x (change_all (switch_changes x v) opt) ≡ v
unfolding change_all
switch-value Switch.serial v opt h = is-change Flag.serial v opt h
switch-value Switch.serialonce true opt h = ap not (is-change Flag.serial_sev false opt h)
switch-value Switch.serialonce false opt h = ap not (is-change Flag.serial_sev true opt h)
switch-value Switch.lavgonce true opt h = ap not (is-change Flag.lavg_sev false opt h)
switch-value Switch.lavgonce false opt h = ap not (is-change Flag.lavg_sev true opt h)
switch-value Switch.exesev v opt h = is-change Flag.exe_sev v opt h
switch-value Switch.bootrun v opt h = is-change Flag.bootrun v opt h
switch-value Switch.rebootreset v opt h = is-change Flag.rebootreset v opt h
switch-value Switch.runatreboot v opt h = is-change Flag.runatreboot v opt h
switch-value Switch.runatresume v opt h = is-change Flag.runatresume v opt h
switch-value Switch.runonce v opt h = is-change Flag.runonce v opt h
switch-value Switch.strict v opt h = is-change Flag.strict v opt h
switch-value Switch.noticenotrun v opt h = is-change Flag.notice_notrun v opt h
switch-value Switch.lavgand true opt h = ap not (is-change Flag.lor false opt h)
switch-value Switch.lavgand false opt h = ap not (is-change Flag.lor true opt h)
switch-value Switch.lavgor true opt h = is-change Flag.lor true opt h
switch-value Switch.lavgor false opt h = is-change Flag.lor false opt h
switch-value Switch.mail true opt h = is-change Flag.mail true opt h
switch-value Switch.mail false opt h =
    is-change_ne Flag.mailzerolength Flag.mail false _ (change-IsOptions (Flag.mail, false) opt h)
      (λ e. absurd cc)
    ∙ is-change Flag.mail false opt h
switch-value Switch.forcemail true opt h =
    is-change_ne Flag.mail Flag.mailzerolength true _
      (change-IsOptions (Flag.mailzerolength, true) opt h) (λ e. absurd cc)
    ∙ is-change Flag.mailzerolength true opt h
switch-value Switch.forcemail false opt h = is-change Flag.mailzerolength false opt h
switch-value Switch.erroronlymail v opt h = is-change Flag.erroronlymail v opt h
switch-value Switch.dayand true opt h = ap not (is-change Flag.dayor false opt h)
switch-value Switch.dayand false opt h = ap not (is-change Flag.dayor true opt h)
switch-value Switch.dayor true opt h = is-change Flag.dayor true opt h
switch-value Switch.dayor false opt h = is-change Flag.dayor false opt h
switch-value Switch.nolog v opt h = is-change Flag.nolog v opt h
switch-value Switch.volatile v opt h = is-change Flag.volatile v opt h
switch-value Switch.stdout v opt h = is-change Flag.stdout v opt h
switch-value Switch.random v opt h = is-change Flag.random v opt h

-- The changes that an option makes with its argument give it the value of the argument, in a well-formed
-- array of options, which stays well-formed; a flag that the changes do not name keeps its value.
pub switch_changes-is_on :
    (x : Switch) (v : Bool) (opt : Bitstring) (g : Flag)
    → IsOptions opt
    → All (λ (c : Change). g ≢ c.0) (switch_changes x v)
    → (is_on x (change_all (switch_changes x v) opt) ≡ v)
      × IsOptions (change_all (switch_changes x v) opt)
      × (is g (change_all (switch_changes x v) opt) ≡ is g opt)
switch_changes-is_on x v opt g h ne = (
  switch-value x v opt h,
  change_all-IsOptions (switch_changes x v) opt h,
  is-change_all_ne g (switch_changes x v) opt h ne,
)
