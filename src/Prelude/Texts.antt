-- ===== src/Prelude/Texts.antt =====
-- Texts character by character, as the methods of JavaScript's `String` that the program calls. Of the
-- letters those of ASCII change their case, and of the blanks those of ASCII are trimmed.
use Prim.Native.Nat.{ℕ, zero, suc, ◌/◌, ◌%◌}
use Prim.Native.Char.{Char, code}
use Prim.Native.String.{String, [], ◌∷◌, ◌++◌}
use mathlib.Core.Bool.{Bool, true, false, ◌&&◌, ◌||◌}
use mathlib.Core.List.{List, [], ◌∷◌}
use lior_paris_wallet.Prelude.Tests.{leb, ◌==◌, if◌then◌else◌}

-- `text.split(' ')[0]`
abbrev pub first_word : String → String
first_word [] = []
first_word (c ∷ s) = if code c == 32 then [] else c ∷ first_word s

-- `parts.join('/')`
abbrev pub join_path : List String → String
join_path [] = ""
join_path (s ∷ []) = s
join_path (s ∷ t ∷ parts) = s ++ "/" ++ join_path (t ∷ parts)

-- The letter of the second alphabet at the place where the first has the character.
abbrev change_letter : String → String → Char → Char
change_letter (a ∷ from) (b ∷ to) c = if code c == code a then b else change_letter from to c
change_letter [] to c = c
change_letter (a ∷ from) [] c = c

abbrev change_letters : String → String → String → String
change_letters from to [] = []
change_letters from to (c ∷ s) = change_letter from to c ∷ change_letters from to s

unfoldable pub to_upper_case : String → String
to_upper_case s = change_letters "abcdefghijklmnopqrstuvwxyz" "ABCDEFGHIJKLMNOPQRSTUVWXYZ" s

unfoldable pub to_lower_case : String → String
to_lower_case s = change_letters "ABCDEFGHIJKLMNOPQRSTUVWXYZ" "abcdefghijklmnopqrstuvwxyz" s

abbrev pub is_blank : Char → Bool
is_blank c = code c == 32 || (leb 9 (code c) && leb (code c) 13)

abbrev pub trim_start : String → String
trim_start [] = []
trim_start (c ∷ s) = if is_blank c then trim_start s else c ∷ s

abbrev pub with_first : Char → String → String
with_first c [] = if is_blank c then [] else c ∷ []
with_first c (d ∷ s) = c ∷ d ∷ s

abbrev pub trim_end : String → String
trim_end [] = []
trim_end (c ∷ s) = with_first c (trim_end s)

unfoldable pub trim : String → String
trim s = trim_end (trim_start s)

-- The decimal digit of a number below ten.
abbrev pub digit : ℕ → String
digit zero = "0"
digit (suc zero) = "1"
digit (suc (suc zero)) = "2"
digit (suc (suc (suc zero))) = "3"
digit (suc (suc (suc (suc zero)))) = "4"
digit (suc (suc (suc (suc (suc zero))))) = "5"
digit (suc (suc (suc (suc (suc (suc zero)))))) = "6"
digit (suc (suc (suc (suc (suc (suc (suc zero))))))) = "7"
digit (suc (suc (suc (suc (suc (suc (suc (suc zero)))))))) = "8"
digit (suc (suc (suc (suc (suc (suc (suc (suc (suc n))))))))) = "9"

-- Decimal digits, the last one first; as many rounds as the number are enough.
unfoldable pub digits_to : (fuel n : ℕ) → String → String
digits_to zero n out = out
digits_to (suc fuel) n out = elim (leb n 9) [
  | true ↦ digit n ++ out
  | false ↦ digits_to fuel (n / 10) (digit (n % 10) ++ out)
]

-- `String(n)`
unfoldable pub decimal : ℕ → String
unfolding digits_to
decimal n = digits_to (suc n) n ""
