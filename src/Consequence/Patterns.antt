-- ===== src/Consequence/Patterns.antt =====
-- The regular expressions of packages/pctr/src/consequences.mjs, over character codes. All have
-- the flag `i` without `u`, which folds ASCII letters only; every pattern is in lower case.
use Prim.Native.Char.{code}
use ttp_protocol.Common.{
  String, Bool, true, false, not, ◌&&◌, ◌||◌, ℕ, ◌+◌, leb, nat_eq, Option, none, some, List, [],
  ◌∷◌, if◌then◌else◌, any,
}

abbrev pub codes : String → List ℕ
codes String.[] = []
codes (String.◌∷◌ c s) = code c ∷ codes s

fold_case : ℕ → ℕ
fold_case c = if leb b'A' c && leb c b'Z' then c + 32 else c

-- `\w`
word_char : ℕ → Bool
word_char c =
    leb b'a' c && leb c b'z'
    || leb b'A' c && leb c b'Z'
    || leb b'0' c && leb c b'9'
    || nat_eq c b'_'

-- What follows `w` in `text`, if `text` begins with it.
after : List ℕ → List ℕ → Option (List ℕ)
after [] text = some text
after (w ∷ ws) [] = none
after (w ∷ ws) (c ∷ text) = if nat_eq w (fold_case c) then after ws text else none

-- `search test none text` tries `test` at every position; it is given the character before.
search_from : (Option ℕ → List ℕ → Bool) → Option ℕ → List ℕ → Bool
search_from test prev [] = test prev []
search_from test prev (c ∷ text) = test prev (c ∷ text) || search_from test (some c) text

-- An alternative of a rule: a literal, or a literal between word boundaries.
pub data Pattern : Type 0 where
  spelled word : String → Pattern

-- `\b` after the literal, whose last character is a word character.
abbrev boundary_after : List ℕ → Bool
boundary_after [] = true
boundary_after (c ∷ _) = not (word_char c)

-- `\b` before the literal.
abbrev boundary_before : Option ℕ → Bool
boundary_before none = true
boundary_before (some c) = not (word_char c)

abbrev ends_at_boundary : Option (List ℕ) → Bool
ends_at_boundary none = false
ends_at_boundary (some rest) = boundary_after rest

abbrev found : Option (List ℕ) → Bool
found none = false
found (some _) = true

pattern_at : Pattern → Option ℕ → List ℕ → Bool
pattern_at (spelled s) prev text = found (after (codes s) text)
pattern_at (word s) prev text = boundary_before prev && ends_at_boundary (after (codes s) text)

-- `pattern.test(id)` for one of `RULES`.
unfoldable pub matches : List Pattern → String → Bool
unfolding search_from pattern_at after fold_case word_char
matches patterns id = any (λ p. search_from (pattern_at p) none (codes id)) patterns

-- The class `[.\/_:-]`.
delimiter : ℕ → Bool
delimiter c = nat_eq c b'.' || nat_eq c b'/' || nat_eq c b'_' || nat_eq c b':' || nat_eq c b'-'

-- The class `[.\\/_:-]`, which has the backslash (92) too.
wide_delimiter : ℕ → Bool
wide_delimiter c = nat_eq c 92 || delimiter c

abbrev start_or : (ℕ → Bool) → Option ℕ → Bool
start_or p none = true
start_or p (some c) = p c

abbrev end_or : (ℕ → Bool) → Option (List ℕ) → Bool
end_or p none = false
end_or p (some []) = true
end_or p (some (c ∷ _)) = p c

unfoldable pub sensitive_words : List String
sensitive_words =
    "secret" ∷ "secrets" ∷ "credential" ∷ "credentials" ∷ "token" ∷ "tokens" ∷ "apikey" ∷ "api_key"
    ∷ "private_key" ∷ "password" ∷ "vault" ∷ []

unfoldable pub read_words : List String
read_words =
    "get" ∷ "list" ∷ "read" ∷ "status" ∷ "search" ∷ "query" ∷ "fetch" ∷ "describe" ∷ "show" ∷ "view"
    ∷ "count" ∷ "preview" ∷ []

sensitive_at : String → Option ℕ → List ℕ → Bool
sensitive_at w prev text =
    start_or wide_delimiter prev && end_or wide_delimiter (after (codes w) text)

-- `SENSITIVE_READ.test(id)`
unfoldable pub sensitive_read : String → Bool
unfolding search_from sensitive_at sensitive_words after fold_case wide_delimiter delimiter
sensitive_read id = any (λ w. search_from (sensitive_at w) none (codes id)) sensitive_words

read_at : String → Option ℕ → List ℕ → Bool
read_at w prev text = start_or delimiter prev && end_or (λ _. false) (after (codes w) text)

-- `READ_VERB.test(id)`
unfoldable pub read_verb : String → Bool
unfolding search_from read_at read_words after fold_case delimiter
read_verb id = any (λ w. search_from (read_at w) none (codes id)) read_words
