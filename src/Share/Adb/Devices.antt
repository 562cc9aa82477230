-- ===== src/Share/Adb/Devices.antt =====
-- share/adb.rs: the adb server's device list, filtered for a peer and parsed.
mod Lines
pub mod Filtered
use dial_f.Prelude.{
  ℕ, ◌+◌, Bool, false, not, ◌&&◌, Option, none, some, List, [], ◌∷◌, ◌++◌, is_empty, ◌==◌,
  if◌then◌else◌, map,
}
use dial_f.Prelude.Text.{Text, bytes, text_eq, strip_prefix, split_whitespace, trim}
use dial_f.Share.Adb.{Targets, all, only, allows}

-- Puts a byte in front of the first line.
push_head : ℕ → List Text → List Text
push_head c [] = (c ∷ []) ∷ []
push_head c (l ∷ ls) = (c ∷ l) ∷ ls

starts_newline : Text → Bool
starts_newline [] = false
starts_newline (c ∷ s) = c == 10

-- str::lines: a line ends at `\n`, or at `\r\n`; what follows the last one is a line if not empty.
unfoldable pub lines : Text → List Text
unfolding push_head starts_newline
lines [] = []
lines (c ∷ s) =
    let rest = lines s in
    if c == 10 then [] ∷ rest else if c == 13 && starts_newline s then rest else push_head c rest

-- The first item of a list of words, or the empty text.
first_word : List Text → Text
first_word [] = []
first_word (w ∷ ws) = w

filter_lines : Targets → List Text → Text
unfolding first_word
filter_lines targets [] = []
filter_lines targets (line ∷ rest) =
    let serial = first_word (split_whitespace line) in
    let out = filter_lines targets rest in
    if not (is_empty serial) && allows targets serial then line ++ (10 ∷ out) else out

-- Keeps only shared devices in a `host:devices` payload.
pub filter_device_list : Text → Targets → Text
unfolding filter_lines lines
filter_device_list payload all = payload
filter_device_list payload (only list) = filter_lines (only list) (lines payload)

pub record Device : Type 0 where
  pub serial : Text
  pub state : Text
  pub model : Option Text

-- Whether the device is usable, rather than offline or unauthorized.
unfoldable pub is_ready : Device → Bool
is_ready d = text_eq d.state (bytes "device")

-- The first of the words that begins with `model:`, `_` read as a space.
find_model : List Text → Option Text
find_model [] = none
find_model (w ∷ ws) = elim (strip_prefix (bytes "model:") w) [
  | some m ↦ some (map (λ c. if c == b'_' then 32 else c) m)
  | none ↦ find_model ws
]

device_of_words : List Text → Option Device
unfolding find_model
device_of_words [] = none
device_of_words (serial ∷ []) =
    some (record { serial = serial; state = bytes "unknown"; model = none })
device_of_words (serial ∷ state ∷ parts) =
    some (record { serial = serial; state = state; model = find_model parts })

pub parse_line : Text → Option Device
unfolding device_of_words
parse_line line = if is_empty (trim line) then none else device_of_words (split_whitespace line)

parse_lines : List Text → List Device
parse_lines [] = []
parse_lines (line ∷ rest) = elim (parse_line line) [
  | none ↦ parse_lines rest
  | some d ↦ d ∷ parse_lines rest
]

-- Parses a `host:devices-l` payload.
pub parse_device_list : Text → List Device
unfolding parse_lines parse_line lines
parse_device_list payload = parse_lines (lines payload)
