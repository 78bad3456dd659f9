-- ===== src/Value/Path/RoundTrip.antt =====
-- The pointer of a list of keys parses to the keys.
use flow_backend.Prelude.{
  ℕ, zero, suc, ◌<◌, ◌≡◌, refl, ◌∙◌, ap, Option, none, some, List, [], ◌∷◌, ◌++◌, Str, nat_beq,
  length, length-append, append_assoc, arith, Bool-cases, inl, inr,
}
use flow_backend.Value.Path.{slash, tilde, find_slash, parse_loop, parse}
use flow_backend.Value.Path.Escape.{escape, parse_segment-escape}

-- RFC 6901: each key is written behind a slash.
abbrev pub pointer : List Str → Str
pointer [] = []
pointer (k ∷ ks) = slash ∷ escape k ++ pointer ks

find_slash-escape :
    (k t : Str) (q : Option Str)
    → find_slash t ≡ ([], q)
    → find_slash (escape k ++ t) ≡ (escape k, q)
unfolding escape find_slash
find_slash-escape [] t q h = h
find_slash-escape (c ∷ cs) t q h = elim (Bool-cases (nat_beq c tilde)) [
  | inl e ↦ rw e (rw (find_slash-escape cs t q h))
  | inr e ↦ elim (Bool-cases (nat_beq c slash)) [
    | inl s ↦ rw (e, s) (rw (find_slash-escape cs t q h))
    | inr s ↦ rw (e, s, s) (rw (find_slash-escape cs t q h))
  ]
]

-- The rest of the pointer, with its first slash taken off.
abbrev behind : List Str → Option Str
behind [] = none
behind (k ∷ ks) = some (escape k ++ pointer ks)

find_slash-pointer : (ks : List Str) → find_slash (pointer ks) ≡ ([], behind ks)
unfolding find_slash
find_slash-pointer [] = refl
find_slash-pointer (k ∷ ks) = refl

parse_loop-pointer :
    (fuel : ℕ) (k : Str) (ks vec : List Str)
    → length (escape k ++ pointer ks) < fuel
    → parse_loop fuel (escape k ++ pointer ks) vec ≡ some (vec ++ k ∷ ks)
unfolding parse_loop
parse_loop-pointer zero k ks vec h = elim h [ ]
parse_loop-pointer (suc fuel) k [] vec h =
    rw (find_slash-escape k (pointer []) none (find_slash-pointer []), parse_segment-escape k)
parse_loop-pointer (suc fuel) k (k' ∷ ks) vec h =
    rw
      (
        find_slash-escape k (pointer (k' ∷ ks)) _ (find_slash-pointer (k' ∷ ks)),
        parse_segment-escape k,
      )
      (parse_loop-pointer fuel k' ks (vec ++ k ∷ [])
          (omega (arith, length-append (escape k) (pointer (k' ∷ ks))))
        ∙ ap some (append_assoc vec (k ∷ []) (k' ∷ ks)))

-- The JSON pointer that RFC 6901 gives for a list of keys parses to these keys, whatever their
-- bytes; the rounds of the loop that the model allows are enough.
pub parse-pointer : (ks : List Str) → parse (pointer ks) ≡ some ks
unfolding parse
parse-pointer [] = refl
parse-pointer (k ∷ ks) =
    parse_loop-pointer (suc (length (escape k ++ pointer ks))) k ks [] (omega arith)
