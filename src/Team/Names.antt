-- ===== src/Team/Names.antt =====
-- Validation of team and role names (agentiso/src/team/mod.rs), and the relay's composite keys
-- (agentiso/src/team/message_relay.rs).
use agentiso.Prelude.{
  ℕ, ◌≡◌, refl, Bool, true, false, not, ◌&&◌, ◌||◌, [], ◌∷◌, ◌++◌, Str, Result, ok, fail_if, ◌>>◌,
  ◌==◌, nat_eq, ltb, leb, length, all, arith,
}

pub data NameError : Type 0 where
  bad_length : ℕ → NameError
  bad_character : Str → NameError
  hyphen_at_end : Str → NameError

-- `is_ascii_alphanumeric`
abbrev pub is_alphanumeric : ℕ → Bool
is_alphanumeric c =
    (leb b'0' c && leb c b'9') || (leb b'A' c && leb c b'Z') || (leb b'a' c && leb c b'z')

abbrev pub is_name_char : ℕ → Bool
is_name_char c = is_alphanumeric c || c == b'-'

abbrev pub is_empty : Str → Bool
is_empty [] = true
is_empty (c ∷ s) = false

abbrev pub starts_with_hyphen : Str → Bool
starts_with_hyphen [] = false
starts_with_hyphen (c ∷ s) = c == b'-'

abbrev pub ends_with_hyphen : Str → Bool
ends_with_hyphen [] = false
ends_with_hyphen (c ∷ []) = c == b'-'
ends_with_hyphen (c ∷ d ∷ s) = ends_with_hyphen (d ∷ s)

unfoldable pub validate_name : Str → Result NameError (Unit {0})
validate_name name = do
  fail_if (is_empty name || ltb 64 (length name)) (bad_length (length name))
  fail_if (not (all is_name_char name)) (bad_character name)
  fail_if (starts_with_hyphen name || ends_with_hyphen name) (hyphen_at_end name)

-- The same rules.
unfoldable pub validate_role_name : Str → Result NameError (Unit {0})
validate_role_name name = do
  fail_if (is_empty name || ltb 64 (length name)) (bad_length (length name))
  fail_if (not (all is_name_char name)) (bad_character name)
  fail_if (starts_with_hyphen name || ends_with_hyphen name) (hyphen_at_end name)

-- `format!("{}:{}", team, agent_name)`
unfoldable pub agent_key : (team agent_name : Str) → Str
agent_key team agent_name = team ++ b':' ∷ agent_name

chars-of_valid : (name : Str) → validate_name name ≡ ok tt → all is_name_char name ≡ true
unfolding validate_name
chars-of_valid name h = ground arith

split_at_colon :
    (s t u v : Str)
    → all is_name_char s ≡ true
    → all is_name_char t ≡ true
    → s ++ b':' ∷ u ≡ t ++ b':' ∷ v
    → (s ≡ t) × (u ≡ v)
split_at_colon [] [] u v p q e = (refl, cc)
split_at_colon [] (d ∷ t) u v p q e = let same : b':' ≡ d = cc in absurd (ground arith)
split_at_colon (c ∷ s) [] u v p q e = let same : c ≡ b':' = cc in absurd (ground arith)
split_at_colon (c ∷ s) (d ∷ t) u v p q e =
    let rest = split_at_colon s t u v (ground arith) (ground arith) (cc) in
    let same : c ≡ d = cc in (cc (rest.0), rest.1)

-- Two agents of teams with valid names have the same key only if team and name are the same.
pub agent_key-injective :
    (team other name rename : Str)
    → validate_name team ≡ ok tt
    → validate_name other ≡ ok tt
    → agent_key team name ≡ agent_key other rename
    → (team ≡ other) × (name ≡ rename)
unfolding agent_key
agent_key-injective team other name rename p q e =
    split_at_colon team other name rename (chars-of_valid team p) (chars-of_valid other q) e
