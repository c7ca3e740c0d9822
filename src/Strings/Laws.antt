-- ===== src/Strings/Laws.antt =====
-- subs.c and fileconf.c: strings that are written out, with or without quotes, and read.
use fcron.Prelude.{
  Bool-cases, inl, inr, ap₂, ==_iff, ℕ, suc, ◌-◌, ◌≡◌, refl, ap, ◌∙◌, Bool, true, false, ◌&&◌, ◌||◌,
  some, [], ◌∷◌, ◌++◌, length, take, ◌==◌, arith, All, ==_refl, length-append,
}
use fcron.Parser.{Text}
use fcron.Strings.{
  is_space, is_nil, is_quote, is_bad_end, same_text, remove_blanks, last, close_quote, get_string,
  option_strlen, assign_option_string,
}

abbrev pub IsSpace : ℕ → Type 0
IsSpace c = is_space c ≡ true

-- Spaces at the end do not count.
remove_blanks-spaces : (blanks : Text) → All IsSpace blanks → remove_blanks blanks ≡ []
unfolding remove_blanks
remove_blanks-spaces [] h = refl
remove_blanks-spaces (c ∷ cs) h = rw (remove_blanks-spaces cs h.1, h.0)

remove_blanks-keep :
    (c : ℕ) (cs : Text)
    → is_space c && is_nil (remove_blanks cs) ≡ false
    → remove_blanks (c ∷ cs) ≡ c ∷ remove_blanks cs
unfolding remove_blanks
remove_blanks-keep c cs h = rw h

is_nil-append : (s : Text) (q : ℕ) → is_nil (s ++ (q ∷ [])) ≡ false
is_nil-append [] q = refl
is_nil-append (c ∷ s) q = refl

and-false : (a b : Bool) → b ≡ false → a && b ≡ false
and-false true b h = h
and-false false b h = refl

remove_blanks-end :
    (s blanks : Text) (q : ℕ)
    → All IsSpace blanks
    → is_space q ≡ false
    → remove_blanks (s ++ (q ∷ blanks)) ≡ s ++ (q ∷ [])
remove_blanks-end [] blanks q h hq =
    remove_blanks-keep q blanks (rw hq) ∙ ap (λ t. q ∷ t) (remove_blanks-spaces blanks h)
remove_blanks-end (c ∷ s) blanks q h hq =
    let ih = remove_blanks-end s blanks q h hq in
    remove_blanks-keep c _ (and-false (is_space c) _ (ap is_nil ih ∙ is_nil-append s q))
    ∙ ap (λ t. c ∷ t) ih

last-append : (d q : ℕ) (s : Text) → last d (s ++ (q ∷ [])) ≡ q
unfolding last
last-append d q [] = refl
last-append d q (c ∷ s) = last-append c q s

take-length-append : (s t : Text) → take (length s) (s ++ t) ≡ s
take-length-append [] t = refl
take-length-append (c ∷ s) t = ap (λ l. c ∷ l) (take-length-append s t)

take-append_one : (s : Text) (q : ℕ) → take (length (s ++ (q ∷ [])) - 1) (s ++ (q ∷ [])) ≡ s
take-append_one s q =
    let same : length (s ++ (q ∷ [])) - 1 ≡ length s = omega (arith, length-append s (q ∷ [])) in
    rw same (take-length-append s (q ∷ []))

quote-not_space : (q : ℕ) → is_quote q ≡ true → is_space q ≡ false
quote-not_space q h = ground (arith, h)

-- A string in quotes of either kind, with any spaces behind the second quote, is read as what stands
-- between the quotes, whatever it is, also spaces and quotes.
pub get_string-quoted :
    (q : ℕ) (s blanks : Text)
    → is_quote q ≡ true
    → All IsSpace blanks
    → get_string (q ∷ (s ++ (q ∷ blanks))) ≡ some s
unfolding get_string close_quote
get_string-quoted q s blanks hq h =
    rw (hq, remove_blanks-end s blanks q h (quote-not_space q hq), last-append q q s, ==_refl q)
      (ap some (take-append_one s q))

-- No `)` and no NUL.
abbrev pub IsPlain : ℕ → Type 0
IsPlain c = (c == b')' || c == 0) ≡ false

option_strlen-plain : (s t : Text) → All IsPlain s → option_strlen (s ++ (b')' ∷ t)) ≡ length s
unfolding option_strlen
option_strlen-plain [] t h = refl
option_strlen-plain (c ∷ s) t h = rw (h.0, option_strlen-plain s t h.1)

-- A value that stands in front of a closing parenthesis, that is not empty, has no parenthesis or NUL
-- and neither a space nor a quote at its ends is assigned as it is, and its length is given back.
pub assign_option_string-plain :
    (c : ℕ) (s t : Text)
    → All IsPlain (c ∷ s)
    → is_bad_end c ≡ false
    → is_bad_end (last c s) ≡ false
    → assign_option_string ((c ∷ s) ++ (b')' ∷ t)) ≡ (some (c ∷ s), some (length (c ∷ s)))
unfolding assign_option_string last
assign_option_string-plain c s t h first_ok last_ok =
    let some_length : (suc (length s) == 0) ≡ false = ground arith in
    rw
      (
        option_strlen-plain (c ∷ s) t h,
        take-length-append s (b')' ∷ t),
        first_ok,
        last_ok,
        some_length,
      )
      refl

pub same_text-eq : (a b : Text) → same_text a b ≡ true → a ≡ b
unfolding same_text
same_text-eq [] [] h = refl
same_text-eq [] (d ∷ ds) h = absurd cc
same_text-eq (c ∷ cs) [] h = absurd cc
same_text-eq (c ∷ cs) (d ∷ ds) h = elim (Bool-cases (c == d)) [
  | inl e ↦ ap₂ (λ x xs. x ∷ xs) ((==_iff c d).0 e) (same_text-eq cs ds (rw e at h))
  | inr ne ↦ absurd (cc (rw ne at h))
]
