-- ===== src/Boot/Script.antt =====
-- iPXE scripts as internal/boot/dispatch.go writes them, line by line, and what iPXE's `goto` makes
-- of them as long as no text that it prints reads as commands.
use Prim.Native.String.{String}
use pxe_beacon.Base.{
  ℕ, zero, suc, Bool, true, false, ◌||◌, Option, none, some, List, [], ◌∷◌, ◌++◌, ◌==◌, ◌&&◌, leb,
  if◌then◌else◌, Text, text, bytes, text_eq, is_empty,
}

-- `fmt.Sprintf` where each verb is a single letter and its argument is already printed: `in_verb`
-- says that a percent sign was read.
unfoldable pub format_from : Bool → Text → List Text → Text
format_from in_verb [] args = []
format_from true (c ∷ cs) [] = format_from false cs []
format_from true (c ∷ cs) (a ∷ args) = a ++ format_from false cs args
format_from false (c ∷ cs) args = elim (c == b'%') [
  | true ↦ format_from true cs args
  | false ↦ c ∷ format_from false cs args
]

unfoldable pub sprintf : String → List Text → Text
unfolding format_from text
sprintf form args = format_from false (text form) args

-- A line of a script. Those that concern the flow of control keep their label apart.
pub data Line : Type 0 where
  -- any other line
  say : Text → Line
  -- a line that prints a text of the configuration, as it is, between two texts
  print : Text → Text → Text → Line
  -- ":name"
  label : Text → Line
  -- a line that ends in "goto name"
  jump : Text → Text → Line
  -- "iseq ${setting} value && goto name"
  on_match : Text → Text → Text → Line
  -- an entry of a menu, with the label that it stands for between two texts
  item : Text → Text → Text → Line

unfoldable pub line_text : Line → Text
unfolding sprintf
line_text (say t) = t
line_text (print before t after) = before ++ (t ++ after)
line_text (label name) = bytes ":" ++ name
line_text (jump before name) = before ++ (bytes "goto " ++ name)
line_text (on_match setting value name) =
    sprintf "iseq ${%s} %s && goto %s" (setting ∷ value ∷ name ∷ [])
line_text (item before name after) = before ++ (name ++ after)

-- Each line ends with a newline.
unfoldable pub script_text : List Line → Text
unfolding line_text
script_text [] = []
script_text (l ∷ ls) = line_text l ++ (10 ∷ script_text ls)

-- A text that iPXE reads as one or more words and nothing else: no control character, which could
-- end the line, no sign that joins commands (& |), expands a setting ($), starts a comment (#) or
-- escapes (backslash), and no word that starts with a hyphen and would be an option.
unfoldable pub is_word_byte : ℕ → Bool
is_word_byte b =
    if leb b 31
    then false
    else not_sign b'&' && not_sign b'|' && not_sign b'$' && not_sign b'#' && not_sign b'\\'
  where
    not_sign : ℕ → Bool
    not_sign c = if b == c then false else true

-- `starts` says that a word may start with the next byte.
unfoldable pub is_plain_from : Bool → Text → Bool
unfolding is_word_byte
is_plain_from starts [] = true
is_plain_from starts (b ∷ t) =
    let rest = is_plain_from (b == b' ') t in
    if starts && b == b'-' then false else is_word_byte b && rest

unfoldable pub is_plain : Text → Bool
unfolding is_plain_from
is_plain t = is_plain_from true t

-- All texts that the lines print are plain.
unfoldable pub is_readable : List Line → Bool
is_readable [] = true
is_readable (print before t after ∷ ls) = let rest = is_readable ls in is_plain t && rest
is_readable (say t ∷ ls) = is_readable ls
is_readable (label name ∷ ls) = is_readable ls
is_readable (jump before name ∷ ls) = is_readable ls
is_readable (on_match setting value name ∷ ls) = is_readable ls
is_readable (item before name after ∷ ls) = is_readable ls

-- The labels of a script, and those that its lines can go to: the entries of a menu are what a
-- "goto ${choice}" chooses from.
unfoldable pub labels : List Line → List Text
labels [] = []
labels (label name ∷ ls) = name ∷ labels ls
labels (say t ∷ ls) = labels ls
labels (print before t after ∷ ls) = labels ls
labels (jump before name ∷ ls) = labels ls
labels (on_match setting value name ∷ ls) = labels ls
labels (item before name after ∷ ls) = labels ls

unfoldable pub targets : List Line → List Text
targets [] = []
targets (label name ∷ ls) = targets ls
targets (say t ∷ ls) = targets ls
targets (print before t after ∷ ls) = targets ls
targets (jump before name ∷ ls) = name ∷ targets ls
targets (on_match setting value name ∷ ls) = name ∷ targets ls
targets (item before name after ∷ ls) = name ∷ targets ls

-- Where `goto name` leads: behind the first such label of the script. Nothing is said of what
-- stands behind a printed text that is not plain.
unfoldable pub after_label : Text → List Line → Option (List Line)
after_label name [] = none
after_label name (label other ∷ ls) = if text_eq other name then some ls else after_label name ls
after_label name (say t ∷ ls) = after_label name ls
after_label name (print before t after ∷ ls) = if is_plain t then after_label name ls else none
after_label name (jump before other ∷ ls) = after_label name ls
after_label name (on_match setting value other ∷ ls) = after_label name ls
after_label name (item before other after ∷ ls) = after_label name ls

-- The first jump that is taken, where `value_of` gives the settings and `holds` says which of the
-- conditional jumps are taken. A jump with nothing before it always is. Nothing is said of what
-- follows a printed text that is not plain.
unfoldable pub taken : (Text → Text) → (Text → Bool) → List Line → Option Text
taken value_of holds [] = none
taken value_of holds (jump before name ∷ ls) =
    if is_empty before || holds before then some name else taken value_of holds ls
taken value_of holds (on_match setting value name ∷ ls) =
    if text_eq (value_of setting) value then some name else taken value_of holds ls
taken value_of holds (label name ∷ ls) = taken value_of holds ls
taken value_of holds (say t ∷ ls) = taken value_of holds ls
taken value_of holds (print before t after ∷ ls) =
    if is_plain t then taken value_of holds ls else none
taken value_of holds (item before name after ∷ ls) = taken value_of holds ls

-- The labels that the first `n` jumps from `ls` lead to.
unfoldable pub follow : (Text → Text) → (Text → Bool) → List Line → ℕ → List Line → List Text
unfolding taken after_label
follow value_of holds script zero ls = []
follow value_of holds script (suc n) ls = elim (taken value_of holds ls) [
  | none ↦ []
  | some name ↦ name ∷ elim (after_label name script) [
    | none ↦ []
    | some rest ↦ follow value_of holds script n rest
  ]
]
