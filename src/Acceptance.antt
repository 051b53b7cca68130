-- ===== src/Acceptance.antt =====
-- internal/model/acceptance.go: the records of the acceptance check, which internal/model/model.go
-- declares, with the fields that are read here, and the tests on texts that the validators share.
pub mod Checks
pub mod Plan
pub mod Report
pub mod Done
pub mod References
pub mod Adversarial
use Prim.Native.Char.{code}
use clankwork.Base.{
  ℕ, String, Bool, true, false, not, ◌&&◌, ◌||◌, List, [], ◌∷◌, ◌==◌, any, eqb, leb, length,
  is_empty, if◌then◌else◌,
}
use clankwork.Base.Bytes.{Bytes, bytes, to_lower, trim_space, has_prefix, is_one_of}

pub record AcceptanceProbe : Type 0 where
  pub id : String
  pub description : String
  pub probe_type : String
  pub command : String
  pub required_evidence : List String
  pub observable_side_effect : String
  pub negative_assertion : String

pub record AcceptanceCriterion : Type 0 where
  pub id : String
  pub probes : List AcceptanceProbe
  pub required_artifacts : List String

pub record AcceptanceSpec : Type 0 where
  pub task_id : String
  pub criteria : List AcceptanceCriterion

pub record Evidence : Type 0 where
  pub artifact_id : String
  pub evidence_type : String
  pub path : String
  pub probe_id : String
  pub command : String
  pub producer_step : String
  pub producer_role : String
  pub timestamp : String
  pub content_hash : String
  pub authoritative : Bool

abbrev is_space : ℕ → Bool
is_space c = eqb c 32 || leb 9 c && leb c 13

trim_start : String → String
trim_start String.[] = ""
trim_start (String.◌∷◌ c s) =
    let rest = trim_start s in if is_space (code c) then rest else String.◌∷◌ c s

trim_end : String → String
trim_end String.[] = ""
trim_end (String.◌∷◌ c s) =
    let rest = trim_end s in if rest == "" && is_space (code c) then "" else String.◌∷◌ c rest

-- strings.TrimSpace, with the white space of ASCII.
unfoldable pub trim : String → String
unfolding trim_start trim_end
trim s = trim_end (trim_start s)

-- `strings.TrimSpace(s) == ""`
abbrev pub is_blank : String → Bool
is_blank s = trim s == ""

-- The lower-case text without the space around it.
abbrev pub folded : String → Bytes
unfolding to_lower trim_space
folded s = to_lower (trim_space (bytes s))

-- The expression `^[a-z][a-z0-9]*(?:_[a-z0-9]+)*$` as an automaton: before a letter, in a word, and
-- after an underscore.
pub data Place : Type 0 where
  at_start in_word after_line : Place

abbrev is_letter : ℕ → Bool
is_letter c = leb b'a' c && leb c b'z'

abbrev is_digit : ℕ → Bool
is_digit c = leb b'0' c && leb c b'9'

matches_from : Place → Bytes → Bool
matches_from in_word [] = true
matches_from _ [] = false
matches_from at_start (c ∷ s) = is_letter c && matches_from in_word s
matches_from in_word (c ∷ s) =
    eqb c b'_' && matches_from after_line s || (is_letter c || is_digit c) && matches_from in_word s
matches_from after_line (c ∷ s) = (is_letter c || is_digit c) && matches_from in_word s

-- validArtifactTypeRE.MatchString
unfoldable pub is_artifact_type : String → Bool
unfolding matches_from
is_artifact_type s = matches_from at_start (bytes s)

abbrev placeholder_hash_patterns : List String
placeholder_hash_patterns =
    "test" ∷ "todo" ∷ "placeholder" ∷ "example" ∷ "abc"
    ∷ "0000000000000000000000000000000000000000000000000000000000000000"
    ∷ "ffffffffffffffffffffffffffffffffffffffffffffffffffffffffffffffff" ∷ []

drop_bytes : Bytes → Bytes → Bytes
drop_bytes [] s = s
drop_bytes (y ∷ p) [] = []
drop_bytes (y ∷ p) (x ∷ s) = drop_bytes p s

-- strings.TrimPrefix(s, "sha256:") of the folded text.
unfoldable pub normalize_sha256 : String → Bytes
unfolding has_prefix drop_bytes
normalize_sha256 value =
    let s = folded value in
    if has_prefix s (bytes "sha256:") then drop_bytes (bytes "sha256:") s else s

abbrev is_hex : ℕ → Bool
is_hex c = is_digit c || leb b'a' c && leb c b'f' || leb b'A' c && leb c b'F'

all_same : Bytes → Bool
all_same [] = true
all_same (c ∷ s) = not (any (λ d. not (eqb d c)) s)

unfoldable pub is_placeholder_hash : String → Bool
unfolding normalize_sha256 all_same
is_placeholder_hash hash =
    let s = normalize_sha256 hash in
    not (is_empty s)
    && (is_one_of s placeholder_hash_patterns
        || leb 16 (length s) && all_same s
        || any (λ c. not (is_hex c)) s)

unfoldable pub is_verifier_evidence_producer : String → Bool
is_verifier_evidence_producer role = is_one_of (folded role) (
    "verifier" ∷ "acceptance-verifier" ∷ "acceptance_verifier" ∷ "control-plane" ∷ "control_plane"
    ∷ [])
