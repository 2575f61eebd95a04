-- ===== src/Wallet/Tag.antt =====
-- src/shared/utils/generate-wallet-tag.ts. The random suffix is an argument.
use Prim.Native.Char.{Char, char, code}
use Prim.Native.String.{String, [], ◌∷◌, ◌++◌}
use lior_paris_wallet.Prelude.{ℕ, zero, suc, Bool, false, not, ◌&&◌, ◌||◌, leb, ◌==◌, if◌then◌else◌}
use lior_paris_wallet.Prelude.Texts.{to_lower_case}

abbrev pub dash : Char
dash = char 45 tt

-- `[a-z0-9]`
abbrev pub is_alphanumeric : Char → Bool
is_alphanumeric c = (leb 97 (code c) && leb (code c) 122) || (leb 48 (code c) && leb (code c) 57)

-- `replaceAll(/[^a-z0-9]+/g, '-')`; a run has one dash.
unfoldable pub collapse : (in_run : Bool) → String → String
collapse in_run [] = []
collapse in_run (c ∷ s) =
    let rest = collapse (not (is_alphanumeric c)) s in
    if is_alphanumeric c then c ∷ rest else (if in_run then rest else dash ∷ rest)

-- `replaceAll(/^-|-$/g, '')`: at the start, and at the end.
unfoldable pub strip_start : String → String
strip_start [] = []
strip_start (c ∷ s) = if code c == 45 then s else c ∷ s

unfoldable pub strip_end : String → String
strip_end [] = []
strip_end (c ∷ []) = if code c == 45 then [] else c ∷ []
strip_end (c ∷ d ∷ s) = c ∷ strip_end (d ∷ s)

-- `slice(0, n)`
unfoldable pub take_characters : ℕ → String → String
take_characters zero s = []
take_characters (suc n) [] = []
take_characters (suc n) (c ∷ s) = c ∷ take_characters n s

unfoldable pub slug : String → String
slug name = take_characters 4 (strip_end (strip_start (collapse false (to_lower_case name))))

unfoldable pub generate_wallet_tag : (name suffix : String) → String
generate_wallet_tag name suffix = slug name ++ "-" ++ suffix
