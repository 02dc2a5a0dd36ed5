-- ===== src/Keys/Utf8.antt =====
-- unicode/utf8 and strings.ToValidUTF8 of Go's library, as `stringTableV3.intern` uses them.
use solid_ts_facts.Prelude.{
  ℕ, zero, suc, ◌-◌, ◌≡◌, refl, ap, Bool, true, false, ◌&&◌, List, [], ◌∷◌, ◌++◌, ltb, leb, ◌==◌,
  if◌then◌else◌, arith,
}
use solid_ts_facts.Keys.{GoString}

within : ℕ → ℕ → ℕ → Bool
within lo hi b = leb lo b && leb b hi

is_continuation : ℕ → Bool
unfolding within
is_continuation b = within 0x80 0xbf b

-- The second byte's range depends on the first one: no overlong forms, surrogates or values past
-- U+10FFFF.
second_of_three : ℕ → ℕ → Bool
unfolding within
second_of_three a b =
    if a == 0xe0
    then within 0xa0 0xbf b
    else if a == 0xed
    then within 0x80 0x9f b
    else within 0x80 0xbf b

second_of_four : ℕ → ℕ → Bool
unfolding within
second_of_four a b =
    if a == 0xf0
    then within 0x90 0xbf b
    else if a == 0xf4
    then within 0x80 0x8f b
    else within 0x80 0xbf b

two_bytes : ℕ → List ℕ → ℕ
unfolding is_continuation
two_bytes a [] = 0
two_bytes a (b ∷ rest) = if is_continuation b then 2 else 0

three_bytes : ℕ → List ℕ → ℕ
unfolding is_continuation second_of_three
three_bytes a [] = 0
three_bytes a (b ∷ []) = 0
three_bytes a (b ∷ c ∷ rest) = if second_of_three a b && is_continuation c then 3 else 0

four_bytes : ℕ → List ℕ → ℕ
unfolding is_continuation second_of_four
four_bytes a [] = 0
four_bytes a (b ∷ []) = 0
four_bytes a (b ∷ c ∷ []) = 0
four_bytes a (b ∷ c ∷ d ∷ rest) =
    if second_of_four a b && is_continuation c && is_continuation d then 4 else 0

-- The bytes of the rune that begins with `a`, and 0 where the encoding is invalid.
unfoldable pub rune_width : ℕ → List ℕ → ℕ
unfolding within two_bytes three_bytes four_bytes
rune_width a rest =
    if ltb a 0x80
    then 1
    else if within 0xc2 0xdf a
    then two_bytes a rest
    else if within 0xe0 0xef a
    then three_bytes a rest
    else if within 0xf0 0xf4 a
    then four_bytes a rest
    else 0

-- The first argument counts the bytes left of a rune that is accepted already.
valid_from : ℕ → GoString → Bool
valid_from skip [] = true
valid_from (suc skip) (b ∷ rest) = valid_from skip rest
valid_from zero (b ∷ rest) =
    let width = rune_width b rest in
    let tail = valid_from (width - 1) rest in if width == 0 then false else tail

-- utf8.ValidString
unfoldable pub valid_string : GoString → Bool
unfolding valid_from
valid_string s = valid_from 0 s

-- U+FFFD
abbrev pub replacement : GoString
replacement = 0xef ∷ 0xbf ∷ 0xbd ∷ []

-- `run` says that the byte before was invalid, so its run is replaced already.
to_valid_from : ℕ → Bool → GoString → GoString
to_valid_from skip run [] = []
to_valid_from (suc skip) run (b ∷ rest) = b ∷ to_valid_from skip false rest
to_valid_from zero run (b ∷ rest) =
    let width = rune_width b rest in
    let accepted = b ∷ to_valid_from (width - 1) false rest in
    let dropped = to_valid_from 0 true rest in
    if width == 0 then (if run then dropped else replacement ++ dropped) else accepted

-- strings.ToValidUTF8(s, "\uFFFD")
unfoldable pub to_valid_utf8 : GoString → GoString
unfolding to_valid_from
to_valid_utf8 s = to_valid_from 0 false s

to_valid_from-valid_from :
    (skip : ℕ) (run : Bool) (s : GoString) → valid_from skip s ≡ true → to_valid_from skip run s ≡ s
unfolding valid_from to_valid_from
to_valid_from-valid_from zero run [] h = refl
to_valid_from-valid_from (suc skip) run [] h = refl
to_valid_from-valid_from (suc skip) run (b ∷ rest) h =
    ap (◌∷◌ b) (to_valid_from-valid_from skip false rest h)
to_valid_from-valid_from zero run (b ∷ rest) h =
    ground (arith, to_valid_from-valid_from (rune_width b rest - 1) false rest)

-- A valid string is kept byte for byte.
pub to_valid_utf8-valid_string : (s : GoString) → valid_string s ≡ true → to_valid_utf8 s ≡ s
unfolding valid_string to_valid_utf8
to_valid_utf8-valid_string s h = to_valid_from-valid_from 0 false s h
