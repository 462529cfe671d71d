-- ===== src/Text/Split.antt =====
-- `str::lines`, `str::split` by one character and `str::trim`.
use pg_fc.Base.{
  ltb, leb, ◌==◌, if◌then◌else◌, Bool-cases, Str, ℕ, ◌+◌, ◌<◌, ◌≡◌, refl, ◌≢◌, inl, inr, Bool,
  false, ◌&&◌, ◌||◌, List, [], ◌∷◌, ◌++◌, arith,
}
use mathlib.Core.List.{reverse, reverse-cons}

-- A character put in front of the first field.
unfoldable pub cons_head : ℕ → List Str → List Str
cons_head c [] = (c ∷ []) ∷ []
cons_head c (f ∷ fs) = (c ∷ f) ∷ fs

unfoldable pub split : ℕ → Str → List Str
unfolding cons_head
split sep [] = [] ∷ []
split sep (c ∷ s) = let rest = split sep s in if c == sep then [] ∷ rest else cons_head c rest

abbrev at_newline : Str → Bool
at_newline [] = false
at_newline (c ∷ s) = c == b'\n'

-- A line ends at "\n" or "\r\n"; a last line needs no end.
unfoldable pub lines : Str → List Str
unfolding cons_head
lines [] = []
lines (c ∷ s) =
    let rest = lines s in
    if c == b'\n' then [] ∷ rest else if c == b'\r' && at_newline s then rest else cons_head c rest

-- `char::is_whitespace`.
abbrev is_space : ℕ → Bool
is_space c =
    (leb 9 c && leb c 13)
    || c == 32
    || c == 0x85
    || c == 0xa0
    || c == 0x1680
    || (leb 0x2000 c && leb c 0x200a)
    || c == 0x2028
    || c == 0x2029
    || c == 0x202f
    || c == 0x205f
    || c == 0x3000

-- `str::len` counts the bytes of UTF-8.
char_len : ℕ → ℕ
char_len c = if ltb c 0x80 then 1 else if ltb c 0x800 then 2 else if ltb c 0x10000 then 3 else 4

unfoldable pub byte_len : Str → ℕ
unfolding char_len
byte_len [] = 0
byte_len (c ∷ s) = char_len c + byte_len s

trim_start : Str → Str
trim_start [] = []
trim_start (c ∷ s) = let rest = trim_start s in if is_space c then rest else c ∷ s

unfoldable pub trim : Str → Str
unfolding trim_start
trim s = reverse (trim_start (reverse (trim_start s)))

-- No control characters, so neither a tab nor the end of a line.
abbrev pub IsClean : Str → Type 0
IsClean [] = Unit
IsClean (c ∷ s) = (31 < c) × IsClean s

pub IsClean-append : (s t : Str) → IsClean s → IsClean t → IsClean (s ++ t)
IsClean-append [] t hs ht = ht
IsClean-append (c ∷ s) t hs ht = (hs.0, IsClean-append s t hs.1 ht)

pub split-IsClean : (s : Str) → IsClean s → split b'\t' s ≡ s ∷ []
unfolding split
split-IsClean [] h = refl
split-IsClean (c ∷ s) h = ground (arith, split-IsClean s h.1)

-- A clean field before a tab comes out whole.
pub split-field :
    (s rest : Str) → IsClean s → split b'\t' (s ++ b'\t' ∷ rest) ≡ s ∷ split b'\t' rest
unfolding split
split-field [] rest h = refl
split-field (c ∷ s) rest h = ground (arith, split-field s rest h.1)

-- What a line may hold: anything but the two characters of its end.
abbrev pub IsLine : Str → Type 0
IsLine [] = Unit
IsLine (c ∷ s) = (c ≢ b'\n') × (c ≢ b'\r') × IsLine s

pub lines-line : (s rest : Str) → IsLine s → lines (s ++ b'\n' ∷ rest) ≡ s ∷ lines rest
unfolding lines
lines-line [] rest h = refl
lines-line (c ∷ s) rest h = ground (arith, lines-line s rest h.2)

pub IsLine-field : (s t : Str) → IsClean s → IsLine t → IsLine (s ++ b'\t' ∷ t)
IsLine-field [] t hs ht = (omega arith, omega arith, ht)
IsLine-field (c ∷ s) t hs ht = (omega arith, omega arith, IsLine-field s t hs.1 ht)

pub IsLine-IsClean : (s : Str) → IsClean s → IsLine s
IsLine-IsClean [] h = tt
IsLine-IsClean (c ∷ s) h = (omega arith, omega arith, IsLine-IsClean s h.1)

snoc-ne-nil : (s : Str) (c : ℕ) → s ++ c ∷ [] ≢ []
snoc-ne-nil [] c e = cc
snoc-ne-nil (d ∷ s) c e = cc

trim_start-ne-nil : (s t : Str) (c : ℕ) → is_space c ≡ false → trim_start (s ++ c ∷ t) ≢ []
unfolding trim_start
trim_start-ne-nil [] t c h = rw h (λ e. cc)
trim_start-ne-nil (d ∷ s) t c h = elim (Bool-cases (is_space d)) [
  | inl e ↦ rw e (trim_start-ne-nil s t c h)
  | inr e ↦ rw e (λ p. cc)
]

reverse-ne-nil : (s : Str) → s ≢ [] → reverse s ≢ []
reverse-ne-nil [] h = absurd (h refl)
reverse-ne-nil (c ∷ s) h = rw (reverse-cons c s) (snoc-ne-nil (reverse s) c)

-- A text that starts with a visible character is not blank.
pub trim-ne-nil : (c : ℕ) (s : Str) → is_space c ≡ false → trim (c ∷ s) ≢ []
unfolding trim trim_start
trim-ne-nil c s h =
    rw (h, reverse-cons c s) (reverse-ne-nil _ (trim_start-ne-nil (reverse s) [] c h))
