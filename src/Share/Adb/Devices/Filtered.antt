-- ===== src/Share/Adb/Devices/Filtered.antt =====
-- share/adb.rs: what a peer reads from a filtered device list.
use dial_f.Prelude.{
  ◌≡◌, refl, ◌⊎◌, inl, inr, Bool, false, not, ◌&&◌, none, some, List, [], ◌∷◌, is_empty, All,
  Option-cases, arith, keep,
}
use dial_f.Prelude.Text.{Text, split_whitespace}
use dial_f.Prelude.Text.Spaces.{AllFull, split_whitespace-AllFull}
use dial_f.Share.Adb.{only, allows}
use dial_f.Share.Adb.Devices.{
  Device, first_word, filter_lines, filter_device_list, device_of_words, parse_line, parse_lines,
  parse_device_list, lines,
}
use dial_f.Share.Adb.Devices.Lines.{OneLine, lines-OneLine, lines-terminated, parse_line-strip_cr}

-- A device's serial is the first word of its line.
serial_first :
    (ws : List Text) {d : Device} → device_of_words ws ≡ some d → first_word ws ≡ d.serial
unfolding device_of_words first_word
serial_first [] h = cc
serial_first (s ∷ []) h = ground arith
serial_first (s ∷ t ∷ r) h = ground arith

full_first :
    (ws : List Text) {d : Device}
    → AllFull ws
    → device_of_words ws ≡ some d
    → is_empty d.serial ≡ false
unfolding device_of_words
full_first [] a h = cc
full_first (s ∷ []) a h = ground arith
full_first (s ∷ t ∷ r) a h = ground arith

module _ (list : List Text) where
  abbrev shared : Device → Bool
  shared d = allows (only list) d.serial

  abbrev passes : Text → Bool
  passes line =
      let serial = first_word (split_whitespace line) in
      not (is_empty serial) && allows (only list) serial

  -- A line passes the filter just if its device is shared.
  passes-shared : (line : Text) {d : Device} → parse_line line ≡ some d → passes line ≡ shared d
  unfolding parse_line
  passes-shared line {d} h =
      let p : device_of_words (split_whitespace line) ≡ some d = ground arith in
      ground (
        arith,
        serial_first (split_whitespace line) {d = d} p,
        full_first (split_whitespace line) {d = d} (split_whitespace-AllFull line) p,
      )

  passes-shared_cases :
      (line : Text)
      → (parse_line line ≡ none)
        ⊎ ((d : Device) × (parse_line line ≡ some d) × (passes line ≡ shared d))
  passes-shared_cases line = elim (Option-cases (parse_line line)) [
    | inl e ↦ inl e
    | inr (d, e) ↦ inr (d, e, passes-shared line e)
  ]

  parse_filtered :
      (ls : List Text)
      → All OneLine ls
      → parse_lines (lines (filter_lines (only list) ls)) ≡ keep shared (parse_lines ls)
  unfolding filter_lines parse_lines
  parse_filtered [] a = unfold lines in refl
  parse_filtered (line ∷ ls) a = ground (
    arith,
    parse_filtered ls a.1,
    lines-terminated line (filter_lines (only list) ls) a.0,
    parse_line-strip_cr line,
    passes-shared_cases line,
  )

  -- What a peer reads from the filtered reply is exactly the shared devices of the server's reply,
  -- in their order, with state and model.
  pub parse_device_list-filter :
      (payload : Text)
      → parse_device_list (filter_device_list payload (only list))
        ≡ keep (λ d. allows (only list) d.serial) (parse_device_list payload)
  unfolding filter_device_list parse_device_list parse_lines
  parse_device_list-filter payload = parse_filtered (lines payload) (lines-OneLine payload)
