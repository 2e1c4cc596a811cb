-- ===== src/Auth/TokenLaws.antt =====
-- Bridge tokens: distinct random bytes give distinct tokens, and revocation by workspace
-- (agentiso/src/mcp/auth.rs).
use agentiso.Prelude.{
  ℕ, ◌/◌, ◌%◌, ◌<◌, ◌≡◌, refl, ◌≢◌, not, some, List, [], ◌∷◌, Str, ◌==◌, str_eq, nat_eq, arith, All,
}
use agentiso.Prelude.Dict.{lookup-insert, lookup-retain}
use agentiso.Prelude.Dict
use agentiso.Auth.State.{Uuid, AuthManager}
use agentiso.Auth.Tokens.{
  hex_digit, hex, token_of, generate_bridge_token, validate_bridge_token,
  revoke_bridge_tokens_for_workspace,
}

hex_digit-injective : (a b : ℕ) → a < 16 → b < 16 → hex_digit a ≡ hex_digit b → a ≡ b
unfolding hex_digit
hex_digit-injective a b p q e = ground arith

abbrev pub IsByte : ℕ → Type 0
IsByte b = b < 256

head_eq : (a b : ℕ) (s t : Str) → a ∷ s ≡ b ∷ t → a ≡ b
head_eq a b s t e = cc

tail_eq : (a b : ℕ) (s t : Str) → a ∷ s ≡ b ∷ t → s ≡ t
tail_eq a b s t e = cc

hex-injective : (xs ys : List ℕ) → All IsByte xs → All IsByte ys → hex xs ≡ hex ys → xs ≡ ys
unfolding hex
hex-injective [] [] p q e = refl
hex-injective [] (b ∷ ys) p q e = cc
hex-injective (a ∷ xs) [] p q e = cc
hex-injective (a ∷ xs) (b ∷ ys) p q e =
    let rest = tail_eq _ _ _ _ e in
    let hi : a / 16 ≡ b / 16 =
      hex_digit-injective (a / 16) (b / 16) (omega arith) (omega arith) (head_eq _ _ _ _ e) in
    let lo : a % 16 ≡ b % 16 =
      hex_digit-injective (a % 16) (b % 16) (omega arith) (omega arith) (head_eq _ _ _ _ rest) in
    let same : a ≡ b = omega arith in cc (hex-injective xs ys p.1 q.1 (tail_eq _ _ _ _ rest))

token_of-injective :
    (xs ys : List ℕ) → All IsByte xs → All IsByte ys → token_of xs ≡ token_of ys → xs ≡ ys
unfolding token_of
token_of-injective xs ys p q e = hex-injective xs ys p q (cc)

-- A new token gives its session and workspace, and every token made from other random bytes gives
-- what it gave before.
pub generate-validate :
    (bytes others : List ℕ) (sid : Str) (w : Uuid) (m : AuthManager)
    → All IsByte bytes
    → All IsByte others
    → others ≢ bytes
    → let (n, token) = generate_bridge_token bytes sid w m in
      (validate_bridge_token token n ≡ some (sid, w))
      × (validate_bridge_token (token_of others) n ≡ validate_bridge_token (token_of others) m)
unfolding generate_bridge_token validate_bridge_token
generate-validate bytes others sid w m p q ne = (
  Dict.lookup-insert_self (token_of bytes) (sid, w) m.bridge_tokens,
  Dict.lookup-insert_ne (token_of bytes) (token_of others) (sid, w) m.bridge_tokens
      (λ e. ne (token_of-injective others bytes q p (cc))),
)

-- After the revocation for a workspace no token gives that workspace, and every token of another
-- workspace gives what it gave before.
pub revoke-validate :
    (w v : Uuid) (token sid : Str) (m : AuthManager)
    → Dict.IsDistinct m.bridge_tokens
    → (validate_bridge_token token (revoke_bridge_tokens_for_workspace w m) ≢ some (sid, w))
      × (v ≢ w
          → validate_bridge_token token m ≡ some (sid, v)
          → validate_bridge_token token (revoke_bridge_tokens_for_workspace w m) ≡ some (sid, v))
unfolding revoke_bridge_tokens_for_workspace validate_bridge_token
revoke-validate w v token sid m d =
    let law =
      lookup-retain (λ (t : Str) (entry : Str × Uuid). not (entry.1 == w)) token m.bridge_tokens
        d in
    (λ e. ground (arith, law), λ ne h. ground (arith, law))
