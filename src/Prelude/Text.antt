-- ===== src/Prelude/Text.antt =====
-- The parts of Go's `strings` and `regexp` packages that the program uses.
use Prim.Native.Nat.{ℕ, ◌+◌}
use Prim.Native.Char.{Char, code}
use Prim.Native.String.{String, ◌++◌}
use mathlib.Core.List.{List, [], ◌∷◌}
use mathlib.Core.Option
use mathlib.Core.Option.{Option, none, some}
use mathlib.Core.Bool.{Bool, true, false, ◌&&◌, ◌||◌}
use cluster_api_agent.Prelude.Tests.{if◌then◌else◌, leb, nat_eq}

-- a + b
infixr 66 ◌<>◌
abbrev pub ◌<>◌ : String → String → String
s <> t = s ++ t

-- The first piece grows while no separator is met.
abbrev glue : Char → List String → List String
glue c [] = String.◌∷◌ c String.[] ∷ []
glue c (s ∷ ss) = String.◌∷◌ c s ∷ ss

-- strings.Split by one character, given by its code.
unfoldable pub split : ℕ → String → List String
split sep String.[] = "" ∷ []
split sep (String.◌∷◌ c s) =
    let rest = split sep s in if nat_eq (code c) sep then "" ∷ rest else glue c rest

-- strings.SplitN(s, sep, 2), where the separator is met.
unfoldable pub cut : ℕ → String → Option (String × String)
cut sep String.[] = none
cut sep (String.◌∷◌ c s) =
    let rest = cut sep s in
    if nat_eq (code c) sep then some ("", s) else Option.map (λ (a, b). (String.◌∷◌ c a, b)) rest

-- strings.Join
unfoldable pub join : String → List String → String
join sep [] = ""
join sep (s ∷ []) = s
join sep (s ∷ (t ∷ ts)) = s ++ sep ++ join sep (t ∷ ts)

-- strings.HasPrefix(s, p): the whole of `p` stands at the head of `s`.
unfoldable pub has_prefix : String → String → Bool
has_prefix s String.[] = true
has_prefix String.[] (String.◌∷◌ d p) = false
has_prefix (String.◌∷◌ c s) (String.◌∷◌ d p) = nat_eq (code c) (code d) && has_prefix s p

abbrev lower : ℕ → ℕ
lower c = if leb b'A' c && leb c b'Z' then c + 32 else c

-- strings.EqualFold against a text whose letters have no folding outside ASCII.
unfoldable pub equal_fold : String → String → Bool
equal_fold String.[] String.[] = true
equal_fold String.[] (String.◌∷◌ d t) = false
equal_fold (String.◌∷◌ c s) String.[] = false
equal_fold (String.◌∷◌ c s) (String.◌∷◌ d t) =
    nat_eq (lower (code c)) (lower (code d)) && equal_fold s t

abbrev is_digit : ℕ → Bool
is_digit c = leb b'0' c && leb c b'9'

abbrev starts_with_digit : String → Bool
starts_with_digit String.[] = false
starts_with_digit (String.◌∷◌ c s) = is_digit (code c)

unfoldable pub starts_v4_digit : String → Bool
starts_v4_digit (String.◌∷◌ a (String.◌∷◌ b (String.◌∷◌ c rest))) =
    nat_eq (code a) b'v' && nat_eq (code b) b'4' && nat_eq (code c) b'.' && starts_with_digit rest
starts_v4_digit _ = false

-- MatchString of the pattern v4\.[0-9]+, which has no anchors.
unfoldable pub matches_v4 : String → Bool
unfolding starts_v4_digit
matches_v4 String.[] = false
matches_v4 (String.◌∷◌ c s) = starts_v4_digit (String.◌∷◌ c s) || matches_v4 s
