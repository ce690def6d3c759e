-- ===== src/Base/GoString.antt =====
-- Go strings: a text is the list of its bytes. Comparison, trimming, prefixes and UTF-8 counting, as
-- the strings, unicode and utf8 packages do them.
use Prim.Native.Nat.{ℕ, suc, ◌+◌}
use Prim.Native.Char.{code}
use Prim.Native.String.{String}
use mathlib.Core.Path.{◌≡◌, refl}
use mathlib.Core.Logic.{◌↔◌}
use mathlib.Core.Bool.{Bool, true, false, ◌&&◌, ◌||◌}
use mathlib.Core.List.{List, [], ◌∷◌, reverse, map}
use native.Mathlib.Omega.{arith}
use pulsar_notifcation_pipel.Base.Tests.{leb, ◌==◌, if◌then◌else◌}

abbrev pub Text : Type 0
Text = List ℕ

-- The bytes of an ASCII literal.
unfoldable pub ascii : String → Text
ascii String.[] = []
ascii (String.◌∷◌ c s) = code c ∷ ascii s

unfoldable pub text_eq : Text → Text → Bool
text_eq [] [] = true
text_eq [] (b ∷ t) = false
text_eq (a ∷ s) [] = false
text_eq (a ∷ s) (b ∷ t) = a == b && text_eq s t

pub text_eq_refl : (s : Text) → text_eq s s ≡ true
unfolding text_eq
text_eq_refl [] = refl
text_eq_refl (a ∷ s) = ground (arith, text_eq_refl s)

pub eq_of_text_eq : (s t : Text) → text_eq s t ≡ true → s ≡ t
unfolding text_eq
eq_of_text_eq [] [] h = refl
eq_of_text_eq [] (b ∷ t) h = cc
eq_of_text_eq (a ∷ s) [] h = cc
eq_of_text_eq (a ∷ s) (b ∷ t) h = ground (arith, eq_of_text_eq s t)

pub text_eq_iff : (s t : Text) → (text_eq s t ≡ true) ↔ (s ≡ t)
text_eq_iff s t = (eq_of_text_eq s t, λ e. subst' e)
  where
    subst' : s ≡ t → text_eq s t ≡ true
    subst' e = rw e (text_eq_refl t)

unfoldable pub has_prefix : Text → Text → Bool
has_prefix s [] = true
has_prefix [] (b ∷ t) = false
has_prefix (a ∷ s) (b ∷ t) = a == b && has_prefix s t

unfoldable pub has_suffix : Text → Text → Bool
unfolding has_prefix
has_suffix s t = has_prefix (reverse s) (reverse t)

-- strings.Contains
unfoldable pub contains : Text → Text → Bool
unfolding has_prefix
contains [] t = has_prefix [] t
contains (a ∷ s) t = has_prefix (a ∷ s) t || contains s t

abbrev pub in_range : ℕ → ℕ → ℕ → Bool
in_range lo hi c = leb lo c && leb c hi

-- unicode.IsSpace of an ASCII byte.
abbrev pub is_ascii_space : ℕ → Bool
is_ascii_space c = in_range 9 13 c || c == 32

-- The encodings of unicode.IsSpace: U+0085 and U+00A0 in two bytes, and in three U+1680,
-- U+2000 to U+200A, U+2028, U+2029, U+202F, U+205F and U+3000.
abbrev pub is_space2 : ℕ → ℕ → Bool
is_space2 a b = a == 0xc2 && (b == 0x85 || b == 0xa0)

abbrev pub is_space3 : ℕ → ℕ → ℕ → Bool
is_space3 a b c =
    a == 0xe1 && b == 0x9a && c == 0x80
    || a == 0xe2 && b == 0x80 && (in_range 0x80 0x8a c || c == 0xa8 || c == 0xa9 || c == 0xaf)
    || a == 0xe2 && b == 0x81 && c == 0x9f
    || a == 0xe3 && b == 0x80 && c == 0x80

-- What is left of a text from the front when its leading spaces are gone.
unfoldable pub trim_left : Text → Text
trim_left [] = []
trim_left (a ∷ []) = if is_ascii_space a then [] else a ∷ []
trim_left (a ∷ b ∷ []) =
    let one = trim_left (b ∷ []) in
    if is_ascii_space a then one else if is_space2 a b then [] else a ∷ b ∷ []
trim_left (a ∷ b ∷ c ∷ s) =
    let one = trim_left (b ∷ c ∷ s) in
    let two = trim_left (c ∷ s) in
    let three = trim_left s in
    if is_ascii_space a
    then one
    else if is_space2 a b
    then two
    else if is_space3 a b c
    then three
    else a ∷ b ∷ c ∷ s

-- The same from the back: the text comes reversed, and so do the encodings.
unfoldable pub trim_back : Text → Text
trim_back [] = []
trim_back (a ∷ []) = if is_ascii_space a then [] else a ∷ []
trim_back (b ∷ a ∷ []) =
    let one = trim_back (a ∷ []) in
    if is_ascii_space b then one else if is_space2 a b then [] else b ∷ a ∷ []
trim_back (c ∷ b ∷ a ∷ s) =
    let one = trim_back (b ∷ a ∷ s) in
    let two = trim_back (a ∷ s) in
    let three = trim_back s in
    if is_ascii_space c
    then one
    else if is_space2 b c
    then two
    else if is_space3 a b c
    then three
    else c ∷ b ∷ a ∷ s

-- strings.TrimSpace
unfoldable pub trim_space : Text → Text
unfolding trim_left trim_back
trim_space s = reverse (trim_back (reverse (trim_left s)))

-- unicode.ToLower of an ASCII byte.
abbrev pub to_lower_byte : ℕ → ℕ
to_lower_byte c = if in_range b'A' b'Z' c then c + 32 else c

-- strings.ToLower, on ASCII letters.
unfoldable pub to_lower : Text → Text
to_lower = map to_lower_byte

-- The text before the first byte `sep`, as strings.IndexByte and a slice give it.
unfoldable pub before_byte : ℕ → Text → Text
before_byte sep [] = []
before_byte sep (c ∷ s) = if c == sep then [] else c ∷ before_byte sep s

abbrev pub is_continuation : ℕ → Bool
is_continuation c = in_range 0x80 0xbf c

-- The bounds of a second byte after a leading byte of three or four bytes.
abbrev pub second_ok3 : ℕ → ℕ → Bool
second_ok3 a b = in_range (if a == 0xe0 then 0xa0 else 0x80) (if a == 0xed then 0x9f else 0xbf) b

abbrev pub second_ok4 : ℕ → ℕ → Bool
second_ok4 a b = in_range (if a == 0xf0 then 0x90 else 0x80) (if a == 0xf4 then 0x8f else 0xbf) b

abbrev pub starts2 : ℕ → ℕ → Bool
starts2 a b = in_range 0xc2 0xdf a && is_continuation b

abbrev pub starts3 : ℕ → ℕ → ℕ → Bool
starts3 a b c = in_range 0xe0 0xef a && second_ok3 a b && is_continuation c

abbrev pub starts4 : ℕ → ℕ → ℕ → ℕ → Bool
starts4 a b c d = in_range 0xf0 0xf4 a && second_ok4 a b && is_continuation c && is_continuation d

-- utf8.RuneCountInString: an encoding counts once, and so does each byte that starts none.
unfoldable pub rune_count : Text → ℕ
rune_count [] = 0
rune_count (a ∷ []) = 1
rune_count (a ∷ b ∷ []) = let one = suc (rune_count (b ∷ [])) in if starts2 a b then 1 else one
rune_count (a ∷ b ∷ c ∷ []) =
    let one = suc (rune_count (b ∷ c ∷ [])) in
    let two = suc (rune_count (c ∷ [])) in
    if starts2 a b then two else if starts3 a b c then 1 else one
rune_count (a ∷ b ∷ c ∷ d ∷ s) =
    let one = suc (rune_count (b ∷ c ∷ d ∷ s)) in
    let two = suc (rune_count (c ∷ d ∷ s)) in
    let three = suc (rune_count (d ∷ s)) in
    let four = suc (rune_count s) in
    if starts2 a b
    then two
    else if starts3 a b c
    then three
    else if starts4 a b c d
    then four
    else one
