-- ===== src/Text.antt =====
-- The methods of `str` that the program uses on prefixes, separators and white space.
use Prim.Native.Char.{Char, code}
use text.Mathlib.TextLemmas.{nil-append, cons-append}
use uber_clone_python.Base.{
  ℕ, String, ◌==◌, ◌≡◌, ap, Bool, true, ◌&&◌, ◌||◌, Option, none, some, arith, leb, eqb, ◌<>◌,
  if◌then◌else◌,
}

-- The rest of a text behind a prefix, if it starts with that prefix.
unfoldable pub after_prefix : String → String → Option String
after_prefix String.[] s = some s
after_prefix (String.◌∷◌ c p) String.[] = none
after_prefix (String.◌∷◌ c p) (String.◌∷◌ d s) =
    let rest = after_prefix p s in if eqb (code c) (code d) then rest else none

-- `s.removeprefix(p)`
unfoldable pub removeprefix : String → String → String
unfolding after_prefix
removeprefix p s = elim (after_prefix p s) [ none ↦ s | some rest ↦ rest ]

-- `s.split(",")[0]`
unfoldable pub before_comma : String → String
before_comma String.[] = ""
before_comma (String.◌∷◌ c s) =
    let rest = before_comma s in if eqb (code c) b',' then "" else String.◌∷◌ c rest

-- The white space of `str.strip` among the characters of a header, which is Latin-1.
abbrev pub is_space : Char → Bool
is_space c =
    (leb 9 (code c) && leb (code c) 13)
    || (leb 28 (code c) && leb (code c) 32)
    || eqb (code c) 133
    || eqb (code c) 160

unfoldable pub lstrip : String → String
lstrip String.[] = ""
lstrip (String.◌∷◌ c s) = let rest = lstrip s in if is_space c then rest else String.◌∷◌ c s

unfoldable pub rstrip : String → String
rstrip String.[] = ""
rstrip (String.◌∷◌ c s) =
    let rest = rstrip s in if rest == "" && is_space c then "" else String.◌∷◌ c rest

-- `s.strip()`
unfoldable pub strip : String → String
unfolding lstrip rstrip
strip s = rstrip (lstrip s)

eqb_self : (n : ℕ) → eqb n n ≡ true
eqb_self n = ground arith

-- A prefix that was put in front comes off again.
pub after_prefix-append : (p s : String) → after_prefix p (p <> s) ≡ some s
unfolding after_prefix
after_prefix-append String.[] s = ap some (nil-append s)
after_prefix-append (String.◌∷◌ c p) s =
    rw cons-append (ground (arith, eqb_self (code c), after_prefix-append p s))

pub removeprefix-append : (p s : String) → removeprefix p (p <> s) ≡ s
unfolding removeprefix
removeprefix-append p s = ground (arith, after_prefix-append p s)
