-- ===== src/Config.antt =====
-- modules/config/src/config.cpp: `store`, the settings by section. A file is its text, or `none` if
-- it does not exist or cannot be opened. Logging and the search for the default path are left out.
mod Edits
mod Lookups
mod Examples
use nazg.Base.{
  to_lower, ℕ, Bool, true, false, Option, none, some, List, [], ◌∷◌, ◌&&◌, ◌||◌, ◌+◌, ◌-◌, ◌*◌,
  Bytes, codes, ◌==◌, ◌=ᵇ◌, leb, ltb, is_empty, drop_front, drop_end, cut_at, back, drop_last,
  unquote, if◌then◌else◌, map,
}
use nazg.Base.Int.{ℤ, pos, negsuc}
use nazg.Base.Dict.{Dict, lookup, insert, keys}
use nazg.Base.Members.{is_there}
use nazg.Base.Getline.{split_lines}

abbrev pub is_blank : ℕ → Bool
is_blank c = c == b' ' || c == b'\t'

abbrev pub is_blank_or_end : ℕ → Bool
is_blank_or_end c = c == b' ' || c == b'\t' || c == b'\r' || c == b'\n'

-- The text between its first and its last byte that fail the test.
abbrev pub strip : (ℕ → Bool) → Bytes → Bytes
strip p s = drop_end p (drop_front p s)

abbrev pub Config : Type 0
Config = Dict (Dict Bytes)

-- The variables of the loop: `current_section` and `data_`.
pub record Reader : Type 0 where
  pub section : Bytes
  pub settings : Config

abbrev pub section_or_empty : Option (Dict Bytes) → Dict Bytes
section_or_empty none = []
section_or_empty (some values) = values

-- `data_[section][key] = value`
abbrev pub set_value : Bytes → Bytes → Bytes → Config → Config
set_value section key value settings =
    insert section (insert key value (section_or_empty (lookup section settings))) settings

-- A section's name is not trimmed if it is all blank.
abbrev pub section_name : Bytes → Bytes
section_name inside = if is_empty (strip is_blank inside) then inside else strip is_blank inside

-- A line with a `=`, split there.
abbrev pub read_setting : Reader → Option (Bytes × Bytes) → Reader
read_setting reader none = reader
read_setting reader (some (key, value)) =
    if is_empty reader.section then reader else record reader {
      settings =
          set_value reader.section (strip is_blank key) (unquote (strip is_blank value))
            reader.settings;
    }

abbrev pub is_header : ℕ → Bytes → Bool
is_header c rest = c == b'[' && back (c ∷ rest) == b']'

-- One line, trimmed.
abbrev pub read_trimmed : Reader → Bytes → Reader
read_trimmed reader [] = reader
read_trimmed reader (c ∷ rest) =
    if c == b'#'
    then reader
    else if is_header c rest
    then record reader { section = section_name (drop_last rest) }
    else read_setting reader (cut_at b'=' (c ∷ rest))

abbrev pub read_line : Reader → Bytes → Reader
read_line reader line = read_trimmed reader (strip is_blank_or_end line)

abbrev pub read_lines : Reader → List Bytes → Reader
read_lines reader [] = reader
read_lines reader (line ∷ lines) = read_lines (read_line reader line) lines

unfoldable pub load : Option Bytes → Config
load none = []
load (some text) = (read_lines (record { section = []; settings = [] }) (split_lines text)).settings

abbrev pub has_in : Option (Dict Bytes) → Bytes → Bool
has_in none key = false
has_in (some values) key = is_there (lookup key values)

unfoldable pub has : Config → Bytes → Bytes → Bool
has settings section key = has_in (lookup section settings) key

abbrev value_or : Option Bytes → Bytes → Bytes
value_or none default_val = default_val
value_or (some value) default_val = value

abbrev string_in : Option (Dict Bytes) → Bytes → Bytes → Bytes
string_in none key default_val = default_val
string_in (some values) key default_val = value_or (lookup key values) default_val

unfoldable pub get_string : Config → Bytes → Bytes → Bytes → Bytes
get_string settings section key default_val = string_in (lookup section settings) key default_val

unfoldable pub get_bool : Config → Bytes → Bytes → Bool → Bool
unfolding get_string
get_bool settings section key default_val =
    let val = get_string settings section key [] in
    let lower = map to_lower val in
    if is_empty val
    then default_val
    else if lower =ᵇ codes "true"
        || lower =ᵇ codes "1"
        || lower =ᵇ codes "yes"
        || lower =ᵇ codes "on"
    then true
    else if lower =ᵇ codes "false"
        || lower =ᵇ codes "0"
        || lower =ᵇ codes "no"
        || lower =ᵇ codes "off"
    then false
    else default_val

-- `std::stoi`: blanks, a sign and digits, of which there is one at least, within 32 bits.
abbrev digits : ℕ → Bytes → ℕ
digits n [] = n
digits n (c ∷ s) = if leb b'0' c && leb c b'9' then digits (n * 10 + (c - b'0')) s else n

abbrev starts_with_digit : Bytes → Bool
starts_with_digit [] = false
starts_with_digit (c ∷ s) = leb b'0' c && leb c b'9'

abbrev in_range : Bool → ℕ → Option ℤ
in_range negative n =
    if negative
    then if n == 0 then some (pos 0) else if leb n 2147483648 then some (negsuc (n - 1)) else none
    else if ltb n 2147483648
    then some (pos n)
    else none

abbrev signed : Bytes → Bool × Bytes
signed [] = (false, [])
signed (c ∷ s) = if c == b'-' then (true, s) else if c == b'+' then (false, s) else (false, c ∷ s)

abbrev is_c_space : ℕ → Bool
is_c_space c = c == b' ' || (leb 9 c && leb c 13)

unfoldable pub stoi : Bytes → Option ℤ
stoi s =
    let (negative, number) = signed (drop_front is_c_space s) in
    if starts_with_digit number then in_range negative (digits 0 number) else none

abbrev int_or : Option ℤ → ℤ → ℤ
int_or none default_val = default_val
int_or (some n) default_val = n

unfoldable pub get_int : Config → Bytes → Bytes → ℤ → ℤ
unfolding get_string stoi
get_int settings section key default_val =
    let val = get_string settings section key [] in
    if is_empty val then default_val else int_or (stoi val) default_val

abbrev pub keys_in : Option (Dict Bytes) → List Bytes
keys_in none = []
keys_in (some values) = keys values

unfoldable pub section_keys : Config → Bytes → List Bytes
section_keys settings section = keys_in (lookup section settings)
