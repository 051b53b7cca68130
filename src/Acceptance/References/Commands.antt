-- ===== src/Acceptance/References/Commands.antt =====
-- When the command of evidence is taken for the one of an artifact: commandMatches and
-- stripShellVariables of internal/model/acceptance.go. The three expressions are scanned by hand.
use clankwork.Base.{◌≡◌, refl, Bool, true, false, ◌&&◌, ◌||◌, ℕ, String, [], ◌∷◌, ◌++◌, eqb, leb}
use clankwork.Base.Bytes.{Bytes, bytes, same, contains_text, trim_space}
use mathlib.Core.List.{reverse}

abbrev starts_name : ℕ → Bool
starts_name c = leb b'a' c && leb c b'z' || leb b'A' c && leb c b'Z' || eqb c b'_'

abbrev in_name : ℕ → Bool
in_name c = starts_name c || leb b'0' c && leb c b'9'

-- Where the scan for `\$\{?[A-Za-z_][A-Za-z0-9_]*\}?` stands.
pub data Scan : Type 0 where
  plain after_dollar after_brace within : Scan

strip_variables : Scan → Bytes → Bytes
strip_variables plain [] = []
strip_variables after_dollar [] = bytes "$"
strip_variables after_brace [] = bytes "${"
strip_variables within [] = bytes "VAR"
strip_variables plain (c ∷ s) = elim (eqb c b'$') [
  | true ↦ strip_variables after_dollar s
  | false ↦ c ∷ strip_variables plain s
]
strip_variables after_dollar (c ∷ s) = elim (starts_name c) [
  | true ↦ strip_variables within s
  | false ↦ elim (eqb c b'{') [
    | true ↦ strip_variables after_brace s
    | false ↦ elim (eqb c b'$') [
      | true ↦ bytes "$" ++ strip_variables after_dollar s
      | false ↦ bytes "$" ++ c ∷ strip_variables plain s
    ]
  ]
]
strip_variables after_brace (c ∷ s) = elim (starts_name c) [
  | true ↦ strip_variables within s
  | false ↦ elim (eqb c b'$') [
    | true ↦ bytes "${" ++ strip_variables after_dollar s
    | false ↦ bytes "${" ++ c ∷ strip_variables plain s
  ]
]
strip_variables within (c ∷ s) = elim (in_name c) [
  | true ↦ strip_variables within s
  | false ↦ elim (eqb c b'}') [
    | true ↦ bytes "VAR" ++ strip_variables plain s
    | false ↦ elim (eqb c b'$') [
      | true ↦ bytes "VAR" ++ strip_variables after_dollar s
      | false ↦ bytes "VAR" ++ c ∷ strip_variables plain s
    ]
  ]
]

-- Outside of quotes, or inside with what was read since the quote, in reverse.
pub data Quoted : Type 0 where
  unquoted : Quoted
  since : Bytes → Quoted

strip_quoted : ℕ → Quoted → Bytes → Bytes
strip_quoted q unquoted [] = []
strip_quoted q (since acc) [] = q ∷ reverse acc
strip_quoted q unquoted (c ∷ s) = elim (eqb c q) [
  | true ↦ strip_quoted q (since []) s
  | false ↦ c ∷ strip_quoted q unquoted s
]
strip_quoted q (since acc) (c ∷ s) = elim (eqb c q) [
  | true ↦ bytes "STR" ++ strip_quoted q unquoted s
  | false ↦ strip_quoted q (since (c ∷ acc)) s
]

unfoldable pub strip_shell_variables : Bytes → Bytes
unfolding strip_variables strip_quoted
strip_shell_variables cmd =
    strip_quoted 39 unquoted (strip_quoted 34 unquoted (strip_variables plain cmd))

either_contains : Bytes → Bytes → Bool
unfolding same contains_text
either_contains a b = same a b || contains_text a b || contains_text b a

unfoldable pub command_matches : String → String → Bool
unfolding either_contains trim_space strip_shell_variables
command_matches evidence artifact =
    let e = trim_space (bytes evidence) in
    let a = trim_space (bytes artifact) in
    either_contains e a || either_contains (strip_shell_variables e) (strip_shell_variables a)

strips : strip_shell_variables (bytes "a ${X}/$Y 'b' \"c") ≡ bytes "a VAR/VAR STR \"c"
unfolding strip_shell_variables
strips = refl
