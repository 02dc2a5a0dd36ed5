-- ===== src/Keys/Clean.antt =====
-- filepath.Clean of Go's library on a system whose separator is '/': the lexical rules over the
-- path's elements.
use solid_ts_facts.Prelude.{Bool, false, not, ◌&&◌, List, [], ◌∷◌, ◌++◌, ◌==◌, if◌then◌else◌}
use solid_ts_facts.Keys.{GoString, str_eq}
use mathlib.Core.List.{reverse}

abbrev dot : GoString
dot = b'.' ∷ []

abbrev dot_dot : GoString
dot_dot = b'.' ∷ b'.' ∷ []

-- The elements between slashes; `current` is the element being read, last byte first.
elements_from : GoString → GoString → List GoString
elements_from current [] = reverse current ∷ []
elements_from current (b ∷ rest) =
    let next = elements_from [] rest in
    let same = elements_from (b ∷ current) rest in
    if b == b'/' then reverse current ∷ next else same

-- The kept elements, last one first. `..` drops the element before it, is dropped itself at the
-- root, and is kept where nothing is left to drop.
push_element : Bool → GoString → List GoString → List GoString
push_element rooted element [] =
    if str_eq element []
    then []
    else if str_eq element dot
    then []
    else if str_eq element dot_dot && rooted
    then []
    else element ∷ []
push_element rooted element (top ∷ kept) =
    if str_eq element []
    then top ∷ kept
    else if str_eq element dot
    then top ∷ kept
    else if str_eq element dot_dot && not (str_eq top dot_dot)
    then kept
    else element ∷ top ∷ kept

push_elements : Bool → List GoString → List GoString → List GoString
push_elements rooted [] kept = kept
push_elements rooted (element ∷ rest) kept =
    push_elements rooted rest (push_element rooted element kept)

join : List GoString → GoString
join [] = []
join (element ∷ []) = element
join (element ∷ rest) = element ++ b'/' ∷ join rest

is_rooted : GoString → Bool
is_rooted [] = false
is_rooted (b ∷ rest) = b == b'/'

unfoldable pub clean : GoString → GoString
unfolding elements_from push_element push_elements join is_rooted
clean path =
    let rooted = is_rooted path in
    let body = join (reverse (push_elements rooted (elements_from [] path) [])) in
    if rooted then b'/' ∷ body else if str_eq body [] then dot else body
