-- ===== src/Wallet/Tags.antt =====
-- What a wallet's tag looks like (src/shared/utils/generate-wallet-tag.ts).
use Prim.Native.Char.{code}
use Prim.Native.String.{String, [], ◌∷◌, ◌++◌}
use lior_paris_wallet.Prelude.{
  ℕ, zero, suc, ◌≤◌, ◌≡◌, refl, Bool, true, false, not, ◌&&◌, ◌||◌, inl, inr, Bool-cases, ◌==◌,
  arith,
}
use lior_paris_wallet.Prelude.Texts.{to_lower_case}
use lior_paris_wallet.Wallet.Tag.{
  is_alphanumeric, collapse, strip_start, strip_end, take_characters, slug, generate_wallet_tag,
}

-- Letters, digits and dashes.
abbrev is_plain : String → Bool
is_plain [] = true
is_plain (c ∷ s) = (is_alphanumeric c || code c == 45) && is_plain s

-- Not a dash first.
abbrev starts_well : String → Bool
starts_well [] = true
starts_well (c ∷ s) = is_alphanumeric c

abbrev pub length_text : String → ℕ
length_text [] = 0
length_text (c ∷ s) = suc (length_text s)

collapse-plain : (in_run : Bool) (s : String) → is_plain (collapse in_run s) ≡ true
unfolding collapse
collapse-plain in_run [] = refl
collapse-plain in_run (c ∷ s) =
    let rest = collapse-plain (not (is_alphanumeric c)) s in ground arith

collapse-starts : (s : String) → starts_well (collapse true s) ≡ true
unfolding collapse
collapse-starts [] = refl
collapse-starts (c ∷ s) = elim (Bool-cases (is_alphanumeric c)) [
  | inl kept ↦
      let same : collapse true (c ∷ s) ≡ c ∷ collapse (not (is_alphanumeric c)) s = ground arith in
      rw same kept
  | inr replaced ↦
      let same : collapse true (c ∷ s) ≡ collapse true s = rw replaced refl in
      rw same (collapse-starts s)
]

stripped-starts : (s : String) → starts_well (strip_start (collapse false s)) ≡ true
unfolding collapse strip_start
stripped-starts [] = refl
stripped-starts (c ∷ s) = elim (Bool-cases (is_alphanumeric c)) [
  | inl kept ↦
      let same : strip_start (collapse false (c ∷ s)) ≡ c ∷ collapse (not (is_alphanumeric c)) s =
        ground arith in
      rw same kept
  | inr replaced ↦
      let same : strip_start (collapse false (c ∷ s)) ≡ collapse true s = rw replaced refl in
      rw same (collapse-starts s)
]

strip_start-plain : (s : String) → is_plain s ≡ true → is_plain (strip_start s) ≡ true
unfolding strip_start
strip_start-plain [] h = refl
strip_start-plain (c ∷ s) h = ground arith

strip_end-plain : (s : String) → is_plain s ≡ true → is_plain (strip_end s) ≡ true
unfolding strip_end
strip_end-plain [] h = refl
strip_end-plain (c ∷ []) h = elim (Bool-cases (code c == 45)) [
  | inl removed ↦ let same : strip_end (c ∷ []) ≡ [] = ground arith in rw same refl
  | inr kept ↦ let same : strip_end (c ∷ []) ≡ c ∷ [] = ground arith in rw same h
]
strip_end-plain (c ∷ d ∷ s) h = let rest = strip_end-plain (d ∷ s) (ground arith) in ground arith

strip_end-starts : (s : String) → starts_well s ≡ true → starts_well (strip_end s) ≡ true
unfolding strip_end
strip_end-starts [] h = refl
strip_end-starts (c ∷ []) h = elim (Bool-cases (code c == 45)) [
  | inl removed ↦ let same : strip_end (c ∷ []) ≡ [] = ground arith in rw same refl
  | inr kept ↦ let same : strip_end (c ∷ []) ≡ c ∷ [] = ground arith in rw same h
]
strip_end-starts (c ∷ d ∷ s) h = h

take-plain : (n : ℕ) (s : String) → is_plain s ≡ true → is_plain (take_characters n s) ≡ true
unfolding take_characters
take-plain zero s h = refl
take-plain (suc n) [] h = refl
take-plain (suc n) (c ∷ s) h = let rest = take-plain n s (ground arith) in ground arith

take-starts : (n : ℕ) (s : String) → starts_well s ≡ true → starts_well (take_characters n s) ≡ true
unfolding take_characters
take-starts zero s h = refl
take-starts (suc n) [] h = refl
take-starts (suc n) (c ∷ s) h = h

length-take : (n : ℕ) (s : String) → length_text (take_characters n s) ≤ n
unfolding take_characters
length-take zero s = omega arith
length-take (suc n) [] = omega arith
length-take (suc n) (c ∷ s) = let h = length-take n s in omega arith

-- A tag is a prefix and the suffix, with a dash between them. Whatever the name, the prefix has at most
-- four characters, all of them letters, digits and dashes, and no dash comes first.
generate_wallet_tag_lem :
    (name suffix : String)
    → (prefix : String) × (generate_wallet_tag name suffix ≡ prefix ++ "-" ++ suffix)
      × (length_text prefix ≤ 4)
      × (is_plain prefix ≡ true)
      × (starts_well prefix ≡ true)
unfolding generate_wallet_tag slug
generate_wallet_tag_lem name suffix =
    let words = collapse false (to_lower_case name) in
    let stripped = strip_end (strip_start words) in
    let plain =
      strip_end-plain (strip_start words)
        (strip_start-plain words (collapse-plain false (to_lower_case name))) in
    let starts = strip_end-starts (strip_start words) (stripped-starts (to_lower_case name)) in
    (
      slug name,
      refl,
      length-take 4 stripped,
      take-plain 4 stripped plain,
      take-starts 4 stripped starts,
    )
