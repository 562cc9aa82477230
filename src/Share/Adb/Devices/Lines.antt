-- ===== src/Share/Adb/Devices/Lines.antt =====
-- share/adb.rs: a line that is written back with `\n` is read as the same device.
use dial_f.Prelude.{
  ℕ, ◌≡◌, refl, ap, ◌≢◌, ◌⊎◌, inl, inr, ◌&&◌, List, [], ◌∷◌, ◌++◌, is_empty, ◌==◌, if◌then◌else◌,
  All, arith,
}
use dial_f.Prelude.Text.{Text}
use dial_f.Prelude.Text.Spaces.{split_whitespace-cr, trim-cr}
use dial_f.Share.Adb.Devices.{push_head, starts_newline, lines, parse_line}

abbrev pub OneLine : Text → Type 0
OneLine = All (λ c. c ≢ 10)

push_head-OneLine :
    (c : ℕ) (ls : List Text) → c ≢ 10 → All OneLine ls → All OneLine (push_head c ls)
unfolding push_head
push_head-OneLine c [] h a = ((h, tt), tt)
push_head-OneLine c (l ∷ ls) h a = ((h, a.0), a.1)

-- No line holds a line break.
pub lines-OneLine : (s : Text) → All OneLine (lines s)
unfolding lines
lines-OneLine [] = tt
lines-OneLine (c ∷ s) = ground (arith, lines-OneLine s, push_head-OneLine c (lines s))

-- A text without its last byte, if that is `\r`.
pub strip_cr : Text → Text
strip_cr [] = []
strip_cr (c ∷ s) = if c == 13 && is_empty s then [] else c ∷ strip_cr s

strip_cr-cases : (s : Text) → (strip_cr s ≡ s) ⊎ (s ≡ strip_cr s ++ 13 ∷ [])
unfolding strip_cr
strip_cr-cases [] = inl refl
strip_cr-cases (c ∷ s) = ground (arith, strip_cr-cases s)

pub lines-terminated : (l r : Text) → OneLine l → lines (l ++ 10 ∷ r) ≡ strip_cr l ∷ lines r
unfolding lines strip_cr push_head starts_newline
lines-terminated [] r h = refl
lines-terminated (c ∷ []) r h = ground arith
lines-terminated (c ∷ d ∷ s) r h = ground (arith, lines-terminated (d ∷ s) r h.1)

pub parse_line-strip_cr : (l : Text) → parse_line (strip_cr l) ≡ parse_line l
unfolding parse_line
parse_line-strip_cr l = elim (strip_cr-cases l) [
  | inl e ↦ ap parse_line e
  | inr e ↦ cc (trim-cr (strip_cr l), split_whitespace-cr (strip_cr l))
]
