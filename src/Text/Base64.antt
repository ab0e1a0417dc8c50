-- ===== src/Text/Base64.antt =====
-- Base 64 with padding.
use opengnk.Prelude.{ℕ, ◌+◌, ◌-◌, ◌*◌, ◌/◌, ◌%◌, [], ◌∷◌, ltb, ◌==◌, if◌then◌else◌}
use opengnk.Text.{Bytes}

-- The digits of base 64.
digit64 : ℕ → ℕ
digit64 n =
    if ltb n 26
    then 65 + n
    else if ltb n 52
    then 71 + n
    else if ltb n 62
    then n - 4
    else if n == 62
    then b'+'
    else b'/'

-- `base64.StdEncoding.EncodeToString`.
unfoldable pub base64 : Bytes → Bytes
unfolding digit64
base64 [] = []
base64 (a ∷ []) = digit64 (a / 4) ∷ digit64 (a % 4 * 16) ∷ b'=' ∷ b'=' ∷ []
base64 (a ∷ b ∷ []) =
    digit64 (a / 4) ∷ digit64 (a % 4 * 16 + b / 16) ∷ digit64 (b % 16 * 4) ∷ b'=' ∷ []
base64 (a ∷ b ∷ c ∷ s) =
    digit64 (a / 4)
    ∷ digit64 (a % 4 * 16 + b / 16)
    ∷ digit64 (b % 16 * 4 + c / 64)
    ∷ digit64 (c % 64)
    ∷ base64 s
