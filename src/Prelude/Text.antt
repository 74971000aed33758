-- ===== src/Prelude/Text.antt =====
-- Python's texts: `str` of an integer, f-strings, and the order of texts by code points.
use Prim.Native.Nat.{ℕ, zero, suc, ◌/◌, ◌%◌}
use Prim.Native.Char.{code}
use Prim.Native.String.{String, ◌++◌ as text_append}
use mathlib.Core.Path.{◌≡◌, refl}
use mathlib.Core.Logic.{◌⊎◌, inl, inr}
use mathlib.Core.Bool.{Bool, true, false, not, ◌&&◌, ◌||◌}
use mathlib.Core.List.{List, [], ◌∷◌}
use native.Mathlib.Omega.{arith}
use text.Mathlib.Text.{◌==◌ as str_eq}
use zlttbots.Prelude.Tests.{ltb, ◌==◌, if◌then◌else◌}

abbrev digit : ℕ → String
digit n =
    if n == 0
    then "0"
    else if n == 1
    then "1"
    else if n == 2
    then "2"
    else if n == 3
    then "3"
    else if n == 4
    then "4"
    else if n == 5
    then "5"
    else if n == 6
    then "6"
    else if n == 7
    then "7"
    else if n == 8
    then "8"
    else "9"

show_within : ℕ → ℕ → String
show_within zero n = ""
show_within (suc fuel) n =
    let rest = show_within fuel (n / 10) in
    if ltb n 10 then digit n else text_append rest (digit (n % 10))

-- `str(n)`; a number has at most as many digits as its own value plus one
unfoldable pub show : ℕ → String
unfolding show_within
show n = show_within (suc n) n

-- An f-string is the concatenation of its parts.
abbrev pub concat : List String → String
concat [] = ""
concat (s ∷ rest) = text_append s (concat rest)

-- The truth value of a text: whether it is not empty.
abbrev pub truthy : String → Bool
truthy s = not (str_eq s "")

-- the code points that `str.isspace` knows
abbrev pub is_space : ℕ → Bool
is_space n =
    (ltb 8 n && ltb n 14)
    || (ltb 27 n && ltb n 33)
    || n == 133
    || n == 160
    || n == 5760
    || (ltb 8191 n && ltb n 8203)
    || n == 8232
    || n == 8233
    || n == 8239
    || n == 8287
    || n == 12288

-- `not s.strip()`
unfoldable pub is_blank : String → Bool
is_blank String.[] = true
is_blank (String.◌∷◌ c s) = is_space (code c) && is_blank s

-- `s <= t`
pub text_leb : String → String → Bool
text_leb String.[] t = true
text_leb (String.◌∷◌ c s) String.[] = false
text_leb (String.◌∷◌ c s) (String.◌∷◌ d t) =
    if ltb (code c) (code d) then true else if ltb (code d) (code c) then false else text_leb s t

pub text_leb_total : (s t : String) → (text_leb s t ≡ true) ⊎ (text_leb t s ≡ true)
unfolding text_leb
text_leb_total String.[] t = inl refl
text_leb_total (String.◌∷◌ c s) String.[] = inr refl
text_leb_total (String.◌∷◌ c s) (String.◌∷◌ d t) = ground (arith, text_leb_total s t)

pub text_leb_trans :
    (s t u : String) → text_leb s t ≡ true → text_leb t u ≡ true → text_leb s u ≡ true
unfolding text_leb
text_leb_trans String.[] t u p q = refl
text_leb_trans (String.◌∷◌ c s) String.[] u p q = cc
text_leb_trans (String.◌∷◌ c s) (String.◌∷◌ d t) String.[] p q = cc
text_leb_trans (String.◌∷◌ c s) (String.◌∷◌ d t) (String.◌∷◌ e u) p q =
    ground (arith, text_leb_trans s t u)

show_runs : show 9401 ≡ "9401"
unfolding show
show_runs = refl
