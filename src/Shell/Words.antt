-- ===== src/Shell/Words.antt =====
-- How a POSIX shell reads the quoted text of modules/system/src/process.cpp.
use nazg.Base.{
  ℕ, ◌≡◌, ◌≢◌, refl, Bool, true, false, Option, none, some, [], ◌∷◌, ◌++◌, ◌||◌, arith, Bytes,
  codes, ◌==◌, if◌then◌else◌, append_assoc, append-nil,
}
use nazg.Shell.{shell_quote, quote_all, with_workdir}

-- Inside no quotes, inside '…' and inside "…".
pub data Mode : Type 0 where
  plain single double : Mode

-- The bytes that end a word outside of quotes.
abbrev pub ends_word : ℕ → Bool
ends_word c =
    c == b' '
    || c == b'\t'
    || c == b'\n'
    || c == b'|'
    || c == b'&'
    || c == b';'
    || c == b'<'
    || c == b'>'
    || c == b'('
    || c == b')'

-- The bytes that start an expansion or an escape.
abbrev pub expands : ℕ → Bool
expands c = c == b'$' || c == b'`' || c == b'\\'

-- What one byte does: the mode and the word behind it, or the end of the word before it.
pub data Turn : Type 0 where
  reads : Mode → Bytes → Turn
  ends : Turn
  fails : Turn

abbrev pub turn : Mode → ℕ → Bytes → Turn
turn plain c word =
    if c == b'\''
    then reads single word
    else if c == b'"'
    then reads double word
    else if expands c
    then fails
    else if ends_word c
    then ends
    else reads plain (word ++ c ∷ [])
turn single c word = if c == b'\'' then reads plain word else reads single (word ++ c ∷ [])
turn double c word =
    if c == b'"'
    then reads plain word
    else if expands c
    then fails
    else reads double (word ++ c ∷ [])

-- The quoting rules of the POSIX shell: the word at the start of a text and the text behind it.
-- `none` stands for an open quote, and for what is expanded or escaped, which no quoted text is.
pub read_word : Mode → Bytes → Bytes → Option (Bytes × Bytes)
read_word plain [] word = some (word, [])
read_word single [] word = none
read_word double [] word = none
read_word m (c ∷ s) word = elim (turn m c word) [
  | reads m' word' ↦ read_word m' s word'
  | ends ↦ some (word, c ∷ s)
  | fails ↦ none
]

read_word-quote_all :
    (s rest word : Bytes)
    → read_word single (quote_all s ++ rest) word ≡ read_word single rest (word ++ s)
unfolding quote_all read_word
read_word-quote_all [] rest word = simp append-nil
read_word-quote_all (c ∷ s) rest word =
    ground (arith, read_word-quote_all s rest (word ++ c ∷ []), append_assoc word (c ∷ []) s)

-- A text whose first byte, if it has one, ends a word.
abbrev pub StartsBehindWord : Bytes → Type 0
StartsBehindWord [] = Unit
StartsBehindWord (c ∷ s) =
    (ends_word c ≡ true) × (expands c ≡ false) × (c == b'\'' ≡ false) × (c == b'"' ≡ false)

read_word_end :
    (rest word : Bytes) → StartsBehindWord rest → read_word plain rest word ≡ some (word, rest)
unfolding read_word
read_word_end [] word h = refl
read_word_end (c ∷ s) word h = ground arith

-- A shell reads a quoted text back as one word with exactly its bytes, whatever they are, and
-- reads on behind it, if what stands there ends a word.
pub read_word-shell_quote :
    (value rest : Bytes)
    → StartsBehindWord rest
    → read_word plain (shell_quote value ++ rest) [] ≡ some (value, rest)
unfolding shell_quote read_word
read_word-shell_quote value rest h =
    rw
      (
        append_assoc (quote_all value) (b'\'' ∷ []) rest,
        read_word-quote_all value (b'\'' ∷ rest) [],
      )
      (read_word_end rest value h)

-- The command with a working directory that is not empty is read as `cd`, the directory, and the
-- command behind `&&`: no directory name can add a command of its own.
pub read_word-with_workdir :
    (cmd dir : Bytes)
    → dir ≢ []
    → (behind : Bytes) × (read_word plain (with_workdir cmd dir) []
        ≡ some (codes "cd", b' ' ∷ behind))
      × (read_word plain behind [] ≡ some (dir, codes " && " ++ cmd))
unfolding with_workdir read_word
read_word-with_workdir cmd [] h = absurd (h refl)
read_word-with_workdir cmd (c ∷ dir) h = (
  shell_quote (c ∷ dir) ++ (codes " && " ++ cmd),
  refl,
  read_word-shell_quote (c ∷ dir) (codes " && " ++ cmd) (refl, refl, refl, refl),
)
