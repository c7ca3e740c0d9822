-- ===== src/Opt/Laws.antt =====
-- option.h: reading the options back after a `set_` or a `clear_`.
use fcron.Prelude.{
  ℕ, ◌*◌, ◌<◌, ◌≡◌, ◌≢◌, refl, sym, ap, ◌∙◌, true, false, ◌==◌, ==_refl, get_or, List, [], ◌∷◌,
  length, arith, Bool-cases, inl, inr, ==_iff,
}
use fcron.Bits.{Bitstring, bit_set, bit_clear}
use fcron.Bits.Laws.{
  IsBytes, bit_test-bit_set, bit_test-bit_clear, bit_set-IsBytes, bit_clear-IsBytes,
}
use fcron.Opt.{Flag, bit_of, inverted, is, set_opt, clear_opt}

-- `cl_option`: an array of OPTION_SIZE = 4 bytes.
pub record IsOptions (opt : Bitstring) : Type 0 where
  pub bytes : IsBytes opt
  pub size : length opt ≡ 4

bit_of-lt : (f : Flag) → bit_of f < 32
bit_of-lt Flag.freq = omega arith
bit_of-lt _ = omega arith

-- The options in the order of their bits, to invert `bit_of`.
flags : List Flag
flags =
    Flag.freq ∷ Flag.lavg ∷ Flag.lor ∷ Flag.dayor ∷ Flag.bootrun ∷ Flag.serial ∷ Flag.serial_once
    ∷ Flag.mail ∷ Flag.mailzerolength ∷ Flag.run_if_late ∷ Flag.exe_sev ∷ Flag.serial_sev
    ∷ Flag.lavg_sev ∷ Flag.freq_mins ∷ Flag.freq_hrs ∷ Flag.freq_days ∷ Flag.freq_mons
    ∷ Flag.freq_dow ∷ Flag.freq_periodically ∷ Flag.freq_mid ∷ Flag.strict ∷ Flag.notice_notrun
    ∷ Flag.nolog ∷ Flag.random ∷ Flag.volatile ∷ Flag.stdout ∷ Flag.erroronlymail ∷ Flag.rebootreset
    ∷ Flag.runatreboot ∷ Flag.runonce ∷ Flag.hasrun ∷ Flag.runatresume ∷ []

flag_at : ℕ → Flag
unfolding flags
flag_at n = get_or flags n Flag.freq

flag_at-bit_of : (f : Flag) → flag_at (bit_of f) ≡ f
unfolding flag_at
flag_at-bit_of Flag.freq = refl
flag_at-bit_of _ = refl

-- Different options have different bits.
bit_of_injective : (f g : Flag) → bit_of f ≡ bit_of g → f ≡ g
bit_of_injective f g e = sym (flag_at-bit_of f) ∙ ap flag_at e ∙ flag_at-bit_of g

differ : (f g : Flag) → g ≢ f → (bit_of f == bit_of g) ≡ false
differ f g ne = elim (Bool-cases (bit_of f == bit_of g)) [
  | inl e ↦ absurd (ne (sym (bit_of_injective f g ((==_iff (bit_of f) (bit_of g)).0 e))))
  | inr e ↦ e
]

module _ (opt : Bitstring) (v : IsOptions opt) (f : Flag) where
  in_range : bit_of f < 8 * length opt
  in_range = omega (arith, bit_of-lt f, v.size)

  -- In a well-formed option array, `set_FLAG` makes `is_FLAG` true and leaves any other option as it was.
  pub is-set_opt :
      (g : Flag) → g ≢ f → (is f (set_opt f opt) ≡ true) × (is g (set_opt f opt) ≡ is g opt)
  is-set_opt g ne = elim (Bool-cases (inverted f)) [
    | inl e ↦ (
      rw (e, bit_test-bit_clear opt (bit_of f) (bit_of f) v.bytes in_range, ==_refl (bit_of f)),
      rw (e, bit_test-bit_clear opt (bit_of f) (bit_of g) v.bytes in_range, differ f g ne),
    )
    | inr e ↦ (
      rw (e, bit_test-bit_set opt (bit_of f) (bit_of f) v.bytes in_range, ==_refl (bit_of f)),
      rw (e, bit_test-bit_set opt (bit_of f) (bit_of g) v.bytes in_range, differ f g ne),
    )
  ]

  -- In a well-formed option array, `clear_FLAG` makes `is_FLAG` false and leaves any other option as it was.
  pub is-clear_opt :
      (g : Flag) → g ≢ f → (is f (clear_opt f opt) ≡ false) × (is g (clear_opt f opt) ≡ is g opt)
  is-clear_opt g ne = elim (Bool-cases (inverted f)) [
    | inl e ↦ (
      rw (e, bit_test-bit_set opt (bit_of f) (bit_of f) v.bytes in_range, ==_refl (bit_of f)),
      rw (e, bit_test-bit_set opt (bit_of f) (bit_of g) v.bytes in_range, differ f g ne),
    )
    | inr e ↦ (
      rw (e, bit_test-bit_clear opt (bit_of f) (bit_of f) v.bytes in_range, ==_refl (bit_of f)),
      rw (e, bit_test-bit_clear opt (bit_of f) (bit_of g) v.bytes in_range, differ f g ne),
    )
  ]

  -- `set_FLAG` and `clear_FLAG` keep a well-formed option array well-formed.
  pub set_opt-IsOptions : IsOptions (set_opt f opt) × IsOptions (clear_opt f opt)
  set_opt-IsOptions =
      let s = bit_set-IsBytes opt (bit_of f) v.bytes in
      let c = bit_clear-IsBytes opt (bit_of f) v.bytes in
      let vs : IsOptions (bit_set opt (bit_of f)) = record { bytes = s.0; size = s.1 ∙ v.size } in
      let vc : IsOptions (bit_clear opt (bit_of f)) = record { bytes = c.0; size = c.1 ∙ v.size } in
      elim (Bool-cases (inverted f)) [ inl e ↦ rw e (vc, vs) | inr e ↦ rw e (vs, vc) ]
