-- ===== src/Prelude/Split.antt =====
-- Go's strings.Split at one character, and that it takes apart what strings.Join put together.
use Prim.Native.Char.{Char, char, code}
use Prim.Native.String.{String}
use mathlib.Core.Path.{◌≡◌, refl, ap, ◌∙◌}
use mathlib.Core.Bool.{Bool, false, ◌||◌}
use mathlib.Core.List.{List, [], ◌∷◌}
use mathlib.Core.Logic.{inl, inr}
use text.Mathlib.TextLemmas.{nil-append, cons-append}
use native.Mathlib.Omega.{arith}
use instana_agent_operator.Prelude.Tests.{if◌then◌else◌, nat_beq, nat_beq_iff, Bool-cases}
use instana_agent_operator.Prelude.Lists.{All}
use instana_agent_operator.Prelude.Text.{◌<>◌, join}

abbrev pub comma : Char
comma = char 44 tt

-- c == d
abbrev same_char : Char → Char → Bool
same_char c d = nat_beq (code c) (code d)

-- puts a character on the first piece
abbrev onto_first : Char → List String → List String
onto_first c [] = String.◌∷◌ c String.[] ∷ []
onto_first c (s ∷ ss) = String.◌∷◌ c s ∷ ss

unfoldable pub split : String → Char → List String
split String.[] sep = "" ∷ []
split (String.◌∷◌ c s) sep =
    let pieces = split s sep in if same_char c sep then "" ∷ pieces else onto_first c pieces

-- strings.Contains of one character
unfoldable pub has_char : String → Char → Bool
has_char String.[] sep = false
has_char (String.◌∷◌ c s) sep = same_char c sep || has_char s sep

pub split_of_free : (s : String) (sep : Char) → has_char s sep ≡ false → split s sep ≡ s ∷ []
unfolding split has_char
split_of_free String.[] sep h = refl
split_of_free (String.◌∷◌ c s) sep h = elim (Bool-cases (same_char c sep)) [
  | inl e ↦ ground (arith, h, e)
  | inr e ↦ ground (arith, e, split_of_free s sep (ground (arith, h, e)))
]

split-append :
    (s rest : String) (sep : Char)
    → has_char s sep ≡ false
    → split (s <> (String.◌∷◌ sep String.[] <> rest)) sep ≡ s ∷ split rest sep
unfolding split has_char
split-append String.[] rest sep h = ground (
  arith,
  nil-append rest,
  cons-append sep "" rest,
  nil-append (String.◌∷◌ sep rest),
  nat_beq_iff (code sep) (code sep),
)
split-append (String.◌∷◌ c s) rest sep h = elim (Bool-cases (same_char c sep)) [
  | inl e ↦ ground (arith, h, e)
  | inr e ↦ ground (
    arith,
    e,
    cons-append c s (String.◌∷◌ sep String.[] <> rest),
    split-append s rest sep (ground (arith, h, e)),
  )
]

-- no piece has the separator
abbrev pub IsFree : Char → List String → Type 0
IsFree sep ss = All (λ s. has_char s sep ≡ false) ss

-- Splitting at a character undoes joining with it, for pieces of which none has the character.
pub split-join :
    (sep : Char) (s : String) (ss : List String)
    → IsFree sep (s ∷ ss)
    → split (join (s ∷ ss) (String.◌∷◌ sep String.[])) sep ≡ s ∷ ss
unfolding join
split-join sep s [] (free, _) = split_of_free s sep free
split-join sep s (t ∷ ss) (free, rest) =
    split-append s (join (t ∷ ss) (String.◌∷◌ sep String.[])) sep free
    ∙ ap (λ l. s ∷ l) (split-join sep t ss rest)

comma_test : String.◌∷◌ comma String.[] ≡ ","
comma_test = refl
