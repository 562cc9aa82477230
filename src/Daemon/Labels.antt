-- ===== src/Daemon/Labels.antt =====
-- daemon.rs: the names of recordings. A label comes over the control socket and becomes part of a
-- path.
pub mod Trimmed
pub mod Safe
mod Examples
use dial_f.Prelude.{
  ℕ, Bool, true, false, not, ◌&&◌, ◌||◌, Option, none, some, List, [], ◌∷◌, ◌++◌, reverse,
  if◌then◌else◌, leb, ◌==◌, take, is_empty,
}
use dial_f.Prelude.Text.{Text, bytes, decimal}

abbrev pub max_label_len : ℕ
max_label_len = 40

-- `[A-Za-z0-9._-]`
unfoldable pub is_kept : ℕ → Bool
is_kept c =
    leb 48 c && leb c 57
    || (leb 65 c && leb c 90 || (leb 97 c && leb c 122 || (c == 46 || (c == 95 || c == 45))))

-- `['-', '.']`
unfoldable pub is_edge : ℕ → Bool
is_edge c = c == 45 || c == 46

-- The loop over the characters; `dash` tells whether `out` ends with one. The bytes of a character
-- beyond ASCII come to one dash, as the character does.
unfoldable pub squeeze : Bool → Text → Text
unfolding is_kept
squeeze dash [] = []
squeeze dash (c ∷ s) =
    let kept = is_kept c in
    let rest = squeeze (if kept then c == 45 else true) s in
    if kept then c ∷ rest else if dash then rest else 45 ∷ rest

unfoldable pub trim_start : Text → Text
unfolding is_edge
trim_start [] = []
trim_start (c ∷ s) = let rest = trim_start s in if is_edge c then rest else c ∷ s

-- `trim_matches(['-', '.'])`
unfoldable pub trim_matches : Text → Text
unfolding trim_start
trim_matches s = reverse (trim_start (reverse (trim_start s)))

-- `(!cleaned.is_empty()).then_some(cleaned)`
unfoldable pub unless_empty : Text → Option Text
unless_empty s = if is_empty s then none else some s

unfoldable pub sanitize_label : Text → Option Text
unfolding squeeze trim_matches unless_empty
sanitize_label label =
    unless_empty (trim_matches (take max_label_len (trim_matches (squeeze false label))))

-- `label.and_then(sanitize_label)`
unfoldable pub clean_label : Option Text → Option Text
unfolding sanitize_label
clean_label none = none
clean_label (some label) = sanitize_label label

-- The name, of a time after the epoch.
unfoldable pub named : Option Text → ℕ → Text
unfolding decimal
named (some l) ts = bytes "dialf-job-" ++ (l ++ (45 ∷ decimal ts))
named none ts = bytes "dialf-job-" ++ decimal ts

unfoldable pub session_name : Option Text → ℕ → Text
unfolding clean_label named
session_name label ts = named (clean_label label) ts
