-- ===== src/Sanitize/Token.antt =====
-- The placeholder tokens «TOKEN_000001»: `tokenPrefix`, `tokenSuffix`, the format of
-- `TokenMap.register`, and the pattern `tokenPlaceholderRe`. In UTF-8 « is 0xC2 0xAB and » is 0xC2 0xBB.
pub mod Laws
use opengnk.Prelude.{
  ℕ, Bool, true, false, ◌&&◌, ◌||◌, [], ◌∷◌, ◌++◌, leb, length, drop, if◌then◌else◌, ◌≡◌, refl,
}
use opengnk.Text.{Bytes, codes, starts_with}
use opengnk.Text.Decimal.{decimal6}

abbrev pub token_prefix : Bytes
token_prefix = 0xC2 ∷ 0xAB ∷ codes "TOKEN_"

abbrev pub token_suffix : Bytes
token_suffix = 0xC2 ∷ 0xBB ∷ []

-- `fmt.Sprintf("«TOKEN_%06d»", id)`.
unfoldable pub token : ℕ → Bytes
token id = token_prefix ++ (decimal6 id ++ token_suffix)

abbrev is_digit : ℕ → Bool
is_digit c = leb b'0' c && leb c b'9'

-- `\d+»`, with whether a digit has been read.
after_prefix : Bool → Bytes → Bool
after_prefix seen [] = false
after_prefix seen (c ∷ s) =
    if is_digit c then after_prefix true s else seen && starts_with token_suffix (c ∷ s)

-- `tokenPlaceholderRe.MatchString(s)`.
unfoldable pub has_placeholder : Bytes → Bool
unfolding after_prefix
has_placeholder [] = false
has_placeholder (c ∷ s) =
    starts_with token_prefix (c ∷ s) && after_prefix false (drop (length token_prefix) (c ∷ s))
    || has_placeholder s

has_placeholder_runs : has_placeholder (codes "a " ++ (token 12 ++ codes "b")) ≡ true
unfolding has_placeholder token decimal6 starts_with
has_placeholder_runs = refl
