-- ===== src/Config/Edits.antt =====
-- modules/config/src/config.cpp: what lines added to a config file do to its settings.
use nazg.Base.{
  ◌≡◌, refl, sym, subst, ap, inl, inr, Bool, true, false, some, List, [], ◌∷◌, ◌++◌, ◌&&◌, ◌||◌,
  not, =ᵇ_iff, append_assoc, arith, Bytes, ◌=ᵇ◌, ◌==◌, contains, contains-append, is_empty,
  drop_end, cut_at, cut_at-append, unquote, back-concat, drop_last-concat, drop_end-concat,
}
use nazg.Base.Getline.{
  split_lines, split_lines-line, split_lines-append, ended_lines, ended_lines-cases,
}
use nazg.Config.{
  is_blank, is_blank_or_end, strip, read_trimmed, read_setting, Reader, set_value, read_line,
  read_lines, load,
}

abbrev pub header_line : Bytes → Bytes
header_line section = b'[' ∷ section ++ b']' ∷ []

abbrev pub quoted_line : Bytes → Bytes → Bytes
quoted_line key value = key ++ b'=' ∷ b'"' ∷ value ++ b'"' ∷ []

read_lines-append :
    (reader : Reader) (xs ys : List Bytes)
    → read_lines reader (xs ++ ys) ≡ read_lines (read_lines reader xs) ys
read_lines-append reader [] ys = refl
read_lines-append reader (x ∷ xs) ys = read_lines-append (read_line reader x) xs ys

read_lines-ended :
    (reader : Reader) (s : Bytes)
    → read_lines reader (ended_lines s) ≡ read_lines reader (split_lines s)
read_lines-ended reader s = elim (ended_lines-cases s) [
  | inl e ↦ rw e refl
  | inr e ↦ rw (e, read_lines-append) refl
]

-- A name of a section, or a key, that a line can hold.
abbrev pub is_section : Bytes → Bool
is_section s = strip is_blank s =ᵇ s && not (is_empty s) && not (contains b'\n' s)

abbrev starts_badly : Bytes → Bool
starts_badly [] = false
starts_badly (c ∷ s) = is_blank_or_end c || c == b'#'

abbrev pub is_key : Bytes → Bool
is_key k =
    not (starts_badly k)
    && drop_end is_blank k =ᵇ k
    && not (contains b'=' k)
    && not (contains b'\n' k)

-- What the tests of a name and of a key say.
section_facts :
    (s : Bytes)
    → is_section s ≡ true
    → (strip is_blank s ≡ s) × (is_empty s ≡ false) × (contains b'\n' s ≡ false)
section_facts s h = ground (arith, =ᵇ_iff (strip is_blank s) s)

key_facts :
    (k : Bytes)
    → is_key k ≡ true
    → (starts_badly k ≡ false)
      × (drop_end is_blank k ≡ k)
      × (contains b'=' k ≡ false)
      × (contains b'\n' k ≡ false)
key_facts k h = ground (arith, =ᵇ_iff (drop_end is_blank k) k)

read_line-header :
    (reader : Reader) (section : Bytes)
    → is_section section ≡ true
    → read_line reader (header_line section) ≡ record reader { section = section }
read_line-header reader section h =
    let (bare, named, _) = section_facts section h in
    rw
      (
        drop_end-concat is_blank_or_end (b'[' ∷ section) b']' refl,
        back-concat (b'[' ∷ section) b']',
        drop_last-concat section b']',
        bare,
        named,
      )
      refl

unquote-quoted : (v : Bytes) → unquote (b'"' ∷ v ++ b'"' ∷ []) ≡ v
unquote-quoted [] = refl
unquote-quoted (d ∷ v) = rw (back-concat (d ∷ v) b'"', drop_last-concat (d ∷ v) b'"') refl

strip-key : (k : Bytes) → starts_badly k ≡ false → drop_end is_blank k ≡ k → strip is_blank k ≡ k
strip-key [] h e = refl
strip-key (c ∷ k) h e = ground arith

-- The line of a setting is read as it stands.
strip-quoted_line :
    (key value : Bytes)
    → starts_badly key ≡ false
    → strip is_blank_or_end (quoted_line key value) ≡ quoted_line key value
strip-quoted_line [] value h = drop_end-concat is_blank_or_end (b'=' ∷ b'"' ∷ value) b'"' refl
strip-quoted_line (c ∷ k) value h =
    ground (arith, drop_end-concat is_blank_or_end (c ∷ k ++ b'=' ∷ b'"' ∷ value) b'"' refl)

read_trimmed-quoted :
    (reader : Reader) (key value : Bytes)
    → starts_badly key ≡ false
    → read_trimmed reader (quoted_line key value)
      ≡ read_setting reader (cut_at b'=' (quoted_line key value))
read_trimmed-quoted reader [] value h = refl
read_trimmed-quoted reader (c ∷ k) value h =
    ground (arith, back-concat (c ∷ k ++ b'=' ∷ b'"' ∷ value) b'"')

cut_at-quoted_line :
    (key value : Bytes)
    → contains b'=' key ≡ false
    → cut_at b'=' (quoted_line key value) ≡ some (key, b'"' ∷ value ++ b'"' ∷ [])
cut_at-quoted_line key value h =
    subst (λ t. cut_at b'=' t ≡ some (key, b'"' ∷ value ++ b'"' ∷ []))
      (sym (append_assoc key (b'=' ∷ b'"' ∷ value) (b'"' ∷ [])))
      (cut_at-append b'=' key (b'"' ∷ value ++ b'"' ∷ []) h)

read_line-quoted :
    (reader : Reader) (key value : Bytes)
    → is_empty reader.section ≡ false
    → is_key key ≡ true
    → read_line reader (quoted_line key value)
      ≡ record reader { settings = set_value reader.section key value reader.settings }
read_line-quoted reader key value named h =
    let (starts, ends, cuts, _) = key_facts key h in
    rw
      (
        strip-quoted_line key value starts,
        read_trimmed-quoted reader key value starts,
        cut_at-quoted_line key value cuts,
        named,
        strip-key key starts ends,
        drop_end-concat is_blank (b'"' ∷ value) b'"' refl,
        unquote-quoted value,
      )
      refl

-- A text with a section's header and a setting written behind it.
abbrev pub with_setting : Bytes → Bytes → Bytes → Bytes → Bytes
with_setting text section key value =
    text ++ b'\n' ∷ (header_line section ++ b'\n' ∷ (quoted_line key value ++ b'\n' ∷ []))

split_lines-with_setting :
    (text section key value : Bytes)
    → contains b'\n' section ≡ false
    → contains b'\n' key ≡ false
    → contains b'\n' value ≡ false
    → split_lines (with_setting text section key value)
      ≡ ended_lines text ++ header_line section ∷ quoted_line key value ∷ []
split_lines-with_setting text section key value hs hk hv =
    rw
      (
        split_lines-append text
            (header_line section ++ b'\n' ∷ (quoted_line key value ++ b'\n' ∷ [])),
        split_lines-line (header_line section) (quoted_line key value ++ b'\n' ∷ []) no_end_header,
        split_lines-line (quoted_line key value) [] no_end_line,
      )
      (unfold split_lines in refl)
  where
    no_end_header : contains b'\n' (header_line section) ≡ false
    no_end_header = ground (arith, contains-append b'\n' (b'[' ∷ section) (b']' ∷ []))

    no_end_line : contains b'\n' (quoted_line key value) ≡ false
    no_end_line = ground (
      arith,
      contains-append b'\n' (key ++ b'=' ∷ b'"' ∷ value) (b'"' ∷ []),
      contains-append b'\n' key (b'=' ∷ b'"' ∷ value),
    )

read_lines-with_setting :
    (text section key value : Bytes) (start : Reader)
    → is_section section ≡ true
    → is_key key ≡ true
    → contains b'\n' value ≡ false
    → (let before = read_lines start (split_lines text) in
        read_lines start (split_lines (with_setting text section key value))
        ≡ record { section = section; settings = set_value section key value before.settings })
read_lines-with_setting text section key value start hs hk hv =
    let (_, named, ends) = section_facts section hs in
    let (_, _, _, key_ends) = key_facts key hk in
    let before = read_lines start (split_lines text) in
    rw
      (
        split_lines-with_setting text section key value ends key_ends hv,
        read_lines-append start (ended_lines text)
            (header_line section ∷ quoted_line key value ∷ []),
        read_lines-ended start text,
        read_line-header before section hs,
        read_line-quoted (record before { section = section }) key value named hk,
      )
      refl

-- Writing a setting behind a config file, whatever the file holds, sets that setting to the very text
-- between its quotes, in which no variable of the environment is replaced, if the name
-- of the section is not empty and is not blank at its ends, the key has no blank at its ends, no
-- `#` in front and no `=`, and none of the three texts has a line end.
pub load-with_setting :
    (text section key value : Bytes)
    → is_section section ≡ true
    → is_key key ≡ true
    → contains b'\n' value ≡ false
    → load (some (with_setting text section key value))
      ≡ set_value section key value (load (some text))
unfolding load
load-with_setting text section key value hs hk hv =
    ap (λ (r : Reader). r.settings)
      (read_lines-with_setting text section key value (record { section = []; settings = [] }) hs hk
        hv)
