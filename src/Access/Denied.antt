-- ===== src/Access/Denied.antt =====
-- allow.c: users that fcron.deny names.
use fcron.Prelude.{
  ◌≡◌, refl, Bool, true, false, not, ◌||◌, Option, some, List, [], ◌∷◌, ◌++◌, codes, All,
  if◌then◌else◌,
}
use fcron.Parser.{Text}
use fcron.Strings.{same_text}
use fcron.Access.{Listed, entry_of, is_comment, in_lines, in_file, may_use, is_allowed}

-- A line that is an entry for the user.
abbrev pub IsEntryOf : Text → Text → Type 0
IsEntryOf user line = (is_comment line ≡ false) × (same_text user (entry_of line) ≡ true)

-- A line that is not an entry for all users.
abbrev pub IsNotAll : Text → Type 0
IsNotAll line = is_comment line || not (same_text (entry_of line) (codes "all")) ≡ true

in_lines-step :
    (user line : Text) (lines : List Text)
    → IsNotAll line
    → in_lines user lines ≡ Listed.listed
    → in_lines user (line ∷ lines) ≡ Listed.listed
unfolding in_lines
in_lines-step user line lines h e =
    go (is_comment line) (same_text (entry_of line) (codes "all")) (same_text user (entry_of line))
      h
  where
    go :
        (comment all user_named : Bool)
        → comment || not all ≡ true
        → (if comment
            then in_lines user lines
            else if user_named
            then Listed.listed
            else if all
            then Listed.all_listed
            else in_lines user lines)
          ≡ Listed.listed
    go true all user_named h = e
    go false false true h = refl
    go false false false h = e
    go false true user_named h = absurd cc

pub in_lines-listed :
    (user line : Text) (before after : List Text)
    → All IsNotAll before
    → IsEntryOf user line
    → in_lines user (before ++ (line ∷ after)) ≡ Listed.listed
unfolding in_lines
in_lines-listed user line [] after h (entry, named) = rw (entry, named) refl
in_lines-listed user line (b ∷ before) after h named =
    in_lines-step user b (before ++ (line ∷ after)) h.0
      (in_lines-listed user line before after h.1 named)

denied : (allow : Listed) → may_use allow Listed.listed ≡ false
unfolding may_use
denied Listed.no_file = refl
denied _ = refl

-- A user whom a line of fcron.deny names, in front of which no line names all users, may not use
-- fcron, whatever fcron.allow says.
pub is_allowed-denied :
    (in_passwd : Text → Bool) (user line : Text) (before after : List Text)
    (allow : Option (List Text))
    → All IsNotAll before
    → IsEntryOf user line
    → is_allowed in_passwd user allow (some (before ++ (line ∷ after))) ≡ false
unfolding is_allowed in_file
is_allowed-denied in_passwd user line before after allow h named =
    rw (in_lines-listed user line before after h named, denied (in_file user allow))
      (go (in_passwd user))
  where
    go : (b : Bool) → (if b then false else false) ≡ false
    go true = refl
    go false = refl
