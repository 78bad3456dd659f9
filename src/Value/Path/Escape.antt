-- ===== src/Value/Path/Escape.antt =====
-- Every key, whatever its bytes, has a segment that parses to it.
use flow_backend.Prelude.{
  ℕ, ◌≡◌, refl, ◌∙◌, sym, ap, false, some, [], ◌∷◌, Str, nat_beq, nat_beq_iff, ap₂, if◌then◌else◌,
  contains, nat_eq, Bool-cases, inl, inr,
}
use flow_backend.Value.Path.{slash, tilde, ends_in_tilde, bad_window, replace, parse_segment}

-- RFC 6901: `~` is written `~0`, and `/` is written `~1`.
unfoldable pub escape : Str → Str
escape [] = []
escape (c ∷ cs) =
    if nat_beq c tilde
    then tilde ∷ b'0' ∷ escape cs
    else if nat_beq c slash
    then tilde ∷ b'1' ∷ escape cs
    else c ∷ escape cs

-- The text after the first replacement.
escape_tilde : Str → Str
escape_tilde [] = []
escape_tilde (c ∷ cs) =
    if nat_beq c tilde then tilde ∷ b'0' ∷ escape_tilde cs else c ∷ escape_tilde cs

replace_miss :
    (a b by c : ℕ) (cs : Str)
    → nat_beq c a ≡ false
    → replace a b by (c ∷ cs) ≡ c ∷ replace a b by cs
unfolding replace
replace_miss a b by c [] h = refl
replace_miss a b by c (d ∷ cs) h = rw h

first_pass : (k : Str) → replace tilde b'1' slash (escape k) ≡ escape_tilde k
unfolding escape escape_tilde replace
first_pass [] = refl
first_pass (c ∷ cs) = elim (Bool-cases (nat_beq c tilde)) [
  | inl t ↦ rw t (
      ap (◌∷◌ tilde)
        (replace_miss tilde b'1' slash b'0' (escape cs) refl ∙ ap (◌∷◌ b'0') (first_pass cs)))
  | inr t ↦ elim (Bool-cases (nat_beq c slash)) [
    | inl s ↦ rw (t, s) (ap₂ ◌∷◌ (sym ((nat_beq_iff c slash).0 s)) (first_pass cs))
    | inr s ↦ rw (t, s) (replace_miss tilde b'1' slash c (escape cs) t ∙ ap (◌∷◌ c) (first_pass cs))
  ]
]

second_pass : (k : Str) → replace tilde b'0' tilde (escape_tilde k) ≡ k
unfolding escape_tilde replace
second_pass [] = refl
second_pass (c ∷ cs) = elim (Bool-cases (nat_beq c tilde)) [
  | inl t ↦ rw t (ap₂ ◌∷◌ (sym ((nat_beq_iff c tilde).0 t)) (second_pass cs))
  | inr t ↦ rw t (replace_miss tilde b'0' tilde c (escape_tilde cs) t ∙ ap (◌∷◌ c) (second_pass cs))
]

ends_skip : (c : ℕ) (s : Str) → nat_beq c tilde ≡ false → ends_in_tilde (c ∷ s) ≡ ends_in_tilde s
unfolding ends_in_tilde
ends_skip c [] h = h
ends_skip c (d ∷ s) h = refl

bad_skip : (c : ℕ) (s : Str) → nat_beq c tilde ≡ false → bad_window (c ∷ s) ≡ bad_window s
unfolding bad_window
bad_skip c [] h = refl
bad_skip c (d ∷ s) h = rw h

ends-escape : (k : Str) → ends_in_tilde (escape k) ≡ false
unfolding escape ends_in_tilde
ends-escape [] = refl
ends-escape (c ∷ cs) = elim (Bool-cases (nat_beq c tilde)) [
  | inl t ↦ rw t (ends_skip b'0' (escape cs) refl ∙ ends-escape cs)
  | inr t ↦ elim (Bool-cases (nat_beq c slash)) [
    | inl s ↦ rw (t, s) (ends_skip b'1' (escape cs) refl ∙ ends-escape cs)
    | inr s ↦ rw (t, s) (ends_skip c (escape cs) t ∙ ends-escape cs)
  ]
]

bad-escape : (k : Str) → bad_window (escape k) ≡ false
unfolding escape bad_window
bad-escape [] = refl
bad-escape (c ∷ cs) = elim (Bool-cases (nat_beq c tilde)) [
  | inl t ↦ rw t (bad_skip b'0' (escape cs) refl ∙ bad-escape cs)
  | inr t ↦ elim (Bool-cases (nat_beq c slash)) [
    | inl s ↦ rw (t, s) (bad_skip b'1' (escape cs) refl ∙ bad-escape cs)
    | inr s ↦ rw (t, s) (bad_skip c (escape cs) t ∙ bad-escape cs)
  ]
]

escape_plain : (k : Str) → contains (escape k) tilde ≡ false → escape k ≡ k
unfolding escape
escape_plain [] h = refl
escape_plain (c ∷ cs) h = elim (Bool-cases (nat_beq c tilde)) [
  | inl t ↦ absurd (cc (rw t at h))
  | inr t ↦ elim (Bool-cases (nat_beq c slash)) [
    | inl s ↦ absurd (cc (rw (t, s) at h))
    | inr s ↦ rw (t, s) (ap (◌∷◌ c) (escape_plain cs (rw (t, s, t) at h)))
  ]
]

-- The segment that RFC 6901 gives for a key parses to the key, whatever its bytes.
pub parse_segment-escape : (k : Str) → parse_segment (escape k) ≡ some k
unfolding parse_segment
parse_segment-escape k = elim (Bool-cases (contains (escape k) tilde)) [
  | inl h ↦
      rw (h, parse_segment, ends-escape k, bad-escape k)
        (ap some (ap (replace tilde b'0' tilde) (first_pass k) ∙ second_pass k))
  | inr h ↦ rw (h, parse_segment) (ap some (escape_plain k h))
]
