-- ===== src/Auth/Tokens.antt =====
-- Bearer tokens of the MCP bridge (agentiso/src/mcp/auth.rs). The 32 random bytes of a new token
-- are an argument.
use agentiso.Prelude.{
  ℕ, ◌+◌, ◌-◌, ◌/◌, ◌%◌, not, Option, List, [], ◌∷◌, ◌++◌, Str, codes, ◌==◌, ltb, if◌then◌else◌,
  str_eq, nat_eq,
}
use agentiso.Prelude.Dict
use agentiso.Auth.State.{Uuid, AuthManager}

-- A hexadecimal digit in lower case.
unfoldable pub hex_digit : ℕ → ℕ
hex_digit d = if ltb d 10 then b'0' + d else b'a' + (d - 10)

-- `format!("{:02x}", b)` of every byte.
unfoldable pub hex : List ℕ → Str
unfolding hex_digit
hex [] = []
hex (b ∷ bytes) = hex_digit (b / 16) ∷ hex_digit (b % 16) ∷ hex bytes

unfoldable pub token_of : List ℕ → Str
unfolding hex
token_of bytes = codes "mcp-" ++ hex bytes

unfoldable pub generate_bridge_token : List ℕ → Str → Uuid → AuthManager → AuthManager × Str
generate_bridge_token bytes sid w m = (
  record m { bridge_tokens = Dict.insert (token_of bytes) (sid, w) m.bridge_tokens },
  token_of bytes,
)

unfoldable pub validate_bridge_token : Str → AuthManager → Option (Str × Uuid)
validate_bridge_token token m = Dict.lookup token m.bridge_tokens

unfoldable pub revoke_bridge_token : Str → AuthManager → AuthManager
revoke_bridge_token token m = record m { bridge_tokens = Dict.remove token m.bridge_tokens }

unfoldable pub revoke_bridge_tokens_for_workspace : Uuid → AuthManager → AuthManager
revoke_bridge_tokens_for_workspace w m = record m {
  bridge_tokens = Dict.retain (λ token entry. not (entry.1 == w)) m.bridge_tokens;
}
