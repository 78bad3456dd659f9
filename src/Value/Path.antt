-- ===== src/Value/Path.antt =====
-- lib/flow-value/src/crud/path.rs: JSON pointers. A text is its UTF-8 bytes; `none` is InvalidPath.
pub mod Escape
pub mod RoundTrip
use flow_backend.Prelude.{
  ℕ, zero, suc, Bool, true, false, not, ◌&&◌, ◌||◌, Option, none, some, List, [], ◌∷◌, ◌++◌, Str,
  nat_beq, length, if◌then◌else◌, ◌>>=◌, contains, nat_eq,
}

abbrev pub slash : ℕ
slash = b'/'

abbrev pub tilde : ℕ
tilde = b'~'

-- The text before the first slash, and the text behind it.
unfoldable pub find_slash : Str → Str × Option Str
find_slash [] = ([], none)
find_slash (c ∷ cs) =
    let (before, after) = find_slash cs in
    if nat_beq c slash then ([], some cs) else (c ∷ before, after)

-- `*buf.last() == b'~'`
unfoldable pub ends_in_tilde : Str → Bool
ends_in_tilde [] = false
ends_in_tilde (c ∷ []) = nat_beq c tilde
ends_in_tilde (c ∷ d ∷ cs) = ends_in_tilde (d ∷ cs)

-- Some two bytes in a row are a tilde and neither `0` nor `1`.
unfoldable pub bad_window : Str → Bool
bad_window [] = false
bad_window (c ∷ []) = false
bad_window (c ∷ d ∷ cs) =
    (nat_beq c tilde && (not (nat_beq d b'0') && not (nat_beq d b'1'))) || bad_window (d ∷ cs)

-- `str::replace` of a text of two bytes by one byte: from the left, without overlaps.
unfoldable pub replace : ℕ → ℕ → ℕ → Str → Str
replace a b by [] = []
replace a b by (c ∷ []) = c ∷ []
replace a b by (c ∷ d ∷ cs) =
    let hit = by ∷ replace a b by cs in
    let miss = c ∷ replace a b by (d ∷ cs) in if nat_beq c a && nat_beq d b then hit else miss

unfoldable pub parse_segment : Str → Option Str
unfolding ends_in_tilde bad_window replace
parse_segment segment =
    if contains segment tilde
    then (if ends_in_tilde segment
        then none
        else if bad_window segment
        then none
        else some (replace tilde b'0' tilde (replace tilde b'1' slash segment)))
    else some segment

-- The rounds of the loop; each takes a slash off the text, which bounds them by its length.
unfoldable pub parse_loop : ℕ → Str → List Str → Option (List Str)
unfolding find_slash parse_segment
parse_loop zero s vec = none
parse_loop (suc fuel) s vec =
    let (segment, rest) = find_slash s in
    parse_segment segment >>= λ key. elim rest [
      | none ↦ some (vec ++ key ∷ [])
      | some s' ↦ parse_loop fuel s' (vec ++ key ∷ [])
    ]

abbrev strip_slash : Str → Str
strip_slash [] = []
strip_slash (c ∷ cs) = if nat_beq c slash then cs else c ∷ cs

unfoldable pub parse : Str → Option (List Str)
unfolding parse_loop
parse [] = some []
parse (c ∷ cs) = parse_loop (suc (length (strip_slash (c ∷ cs)))) (strip_slash (c ∷ cs)) []
