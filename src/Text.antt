-- ===== src/Text.antt =====
-- Text operations: `str.lower`, `str.upper`, `str.strip` and `in` over code points, exact on ASCII text.
-- The program's environments, risks, decisions, roles and signal names are ASCII words.
use Prim.Native.Char.{code}
use Prim.Native.String.{String}
use self_healing_agent.Prelude.{
  not, ℕ, ◌+◌, ◌-◌, Bool, true, false, ◌&&◌, ◌||◌, List, [], ◌∷◌, map, leb, ◌==◌, if◌then◌else◌,
}

abbrev pub codes : String → List ℕ
codes String.[] = []
codes (String.◌∷◌ c s) = code c ∷ codes s

abbrev pub codes_eq : List ℕ → List ℕ → Bool
codes_eq [] [] = true
codes_eq [] (b ∷ bs) = false
codes_eq (a ∷ as') [] = false
codes_eq (a ∷ as') (b ∷ bs) = a == b && codes_eq as' bs

unfoldable pub lower_code : ℕ → ℕ
lower_code c = if leb b'A' c && leb c b'Z' then c + 32 else c

unfoldable pub upper_code : ℕ → ℕ
upper_code c = if leb b'a' c && leb c b'z' then c - 32 else c

-- `s.lower()`
unfoldable pub lower : String → List ℕ
unfolding lower_code
lower s = map lower_code (codes s)

-- `s.upper()`
unfoldable pub upper : String → List ℕ
unfolding upper_code
upper s = map upper_code (codes s)

-- `s.upper() == word`
unfoldable pub upper_is : String → String → Bool
unfolding upper
upper_is s word = codes_eq (upper s) (codes word)

-- `s.lower() in [e.lower() for e in names]`
unfoldable pub has_lower : List String → String → Bool
unfolding lower
has_lower [] s = false
has_lower (n ∷ names) s = codes_eq (lower s) (lower n) || has_lower names s

unfoldable pub is_prefix : List ℕ → List ℕ → Bool
is_prefix [] bs = true
is_prefix (a ∷ as') [] = false
is_prefix (a ∷ as') (b ∷ bs) = a == b && is_prefix as' bs

unfoldable pub is_infix : List ℕ → List ℕ → Bool
unfolding is_prefix
is_infix as' [] = is_prefix as' []
is_infix as' (b ∷ bs) = is_prefix as' (b ∷ bs) || is_infix as' bs

-- `word in s`
unfoldable pub contains : String → String → Bool
contains word s = is_infix (codes word) (codes s)

-- `word in s.lower()`
unfoldable pub lower_contains : String → String → Bool
lower_contains word s = is_infix (codes word) (lower s)

-- `[a-zA-Z0-9_]`
unfoldable pub is_word : ℕ → Bool
unfolding lower_code
is_word c =
    (leb b'a' (lower_code c) && leb (lower_code c) b'z') || (leb b'0' c && leb c b'9') || c == b'_'

-- `[a-fA-F0-9]`
unfoldable pub is_hex : ℕ → Bool
unfolding lower_code
is_hex c = (leb b'a' (lower_code c) && leb (lower_code c) b'f') || (leb b'0' c && leb c b'9')

-- `word\b` at the start, without regard to case
unfoldable pub word_here : List ℕ → List ℕ → Bool
word_here [] [] = true
word_here [] (b ∷ bs) = not (is_word b)
word_here (a ∷ as') [] = false
word_here (a ∷ as') (b ∷ bs) = a == lower_code b && word_here as' bs

-- `c.isspace()`, on ASCII
unfoldable pub is_space : ℕ → Bool
is_space c = (leb 9 c && leb c 13) || (leb 28 c && leb c 32)

unfoldable pub strip_start : List ℕ → List ℕ
strip_start [] = []
strip_start (c ∷ cs) = let rest = strip_start cs in if is_space c then rest else c ∷ cs

unfoldable pub strip_end : List ℕ → List ℕ
strip_end [] = []
strip_end (c ∷ cs) = elim (strip_end cs) [
  | [] ↦ if is_space c then [] else c ∷ []
  | d ∷ ds ↦ c ∷ d ∷ ds
]

-- `s.strip()`
unfoldable pub strip : String → List ℕ
unfolding strip_start strip_end
strip s = strip_end (strip_start (codes s))

-- `not s.strip()`: every character is a space.
unfoldable pub is_blank : String → Bool
unfolding strip
is_blank s = elim (strip s) [ [] ↦ true | c ∷ cs ↦ false ]
