-- ===== src/Base/Texts.antt =====
-- Operations of the language on texts. A native text is a list of characters.
use Prim.Native.Nat.{ℕ}
use Prim.Native.String.{String}
use Prim.Native.Char.{Char, code}
use mathlib.Core.Bool.{Bool, ◌||◌, ◌&&◌}
use mathlib.Core.Option.{Option, none, some}
use mathlib.Core.List.{List, [], ◌∷◌}
use ather.Base.Tests.{if◌then◌else◌, ◌===◌, ◌==◌, leb, is_some}

-- `s.startsWith(p)`, with the rest of the text.
abbrev pub strip_prefix : String → String → Option String
strip_prefix String.[] s = some s
strip_prefix (String.◌∷◌ c p) String.[] = none
strip_prefix (String.◌∷◌ c p) (String.◌∷◌ d s) =
    let rest = strip_prefix p s in if code c == code d then rest else none

abbrev pub starts_with : String → String → Bool
starts_with s p = is_some (strip_prefix p s)

abbrev add_char : Char → Option String → Option String
add_char c none = none
add_char c (some s) = some (String.◌∷◌ c s)

-- `s.endsWith(t)`, with the text before it.
abbrev pub strip_suffix : String → String → Option String
strip_suffix t String.[] = if String.[] === t then some String.[] else none
strip_suffix t (String.◌∷◌ c s) =
    let rest = add_char c (strip_suffix t s) in
    if String.◌∷◌ c s === t then some String.[] else rest

-- The characters that `trim` removes.
abbrev is_space : ℕ → Bool
is_space c =
    (leb 9 c && leb c 13)
    || c == 32
    || c == 0xa0
    || c == 0x1680
    || (leb 0x2000 c && leb c 0x200a)
    || c == 0x2028
    || c == 0x2029
    || c == 0x202f
    || c == 0x205f
    || c == 0x3000
    || c == 0xfeff

abbrev trim_start : String → String
trim_start String.[] = String.[]
trim_start (String.◌∷◌ c s) =
    let rest = trim_start s in if is_space (code c) then rest else String.◌∷◌ c s

abbrev drop_space : Char → String → String
drop_space c String.[] = if is_space (code c) then String.[] else String.◌∷◌ c String.[]
drop_space c (String.◌∷◌ d s) = String.◌∷◌ c (String.◌∷◌ d s)

abbrev trim_end : String → String
trim_end String.[] = String.[]
trim_end (String.◌∷◌ c s) = drop_space c (trim_end s)

abbrev pub trim : String → String
trim s = trim_end (trim_start s)

abbrev onto_first : Char → List String → List String
onto_first c [] = String.◌∷◌ c String.[] ∷ []
onto_first c (s ∷ parts) = String.◌∷◌ c s ∷ parts

-- `s.split(separator)`, for one character.
abbrev pub split : ℕ → String → List String
split separator String.[] = String.[] ∷ []
split separator (String.◌∷◌ c s) =
    let rest = split separator s in
    if code c == separator then String.[] ∷ rest else onto_first c rest

abbrev before : Char → Option (String × String) → Option (String × String)
before c none = none
before c (some (s, t)) = some (String.◌∷◌ c s, t)

-- What stands before and behind the first `separator`, which `indexOf` finds.
abbrev pub split_first : ℕ → String → Option (String × String)
split_first separator String.[] = none
split_first separator (String.◌∷◌ c s) =
    let rest = before c (split_first separator s) in
    if code c == separator then some (String.[], s) else rest
