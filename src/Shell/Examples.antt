-- ===== src/Shell/Examples.antt =====
-- Quoting of texts that hold quotes and shell operators: tests and instances.
use nazg.Base.{◌≡◌, refl, some, [], ◌++◌, Bytes, codes}
use nazg.Shell.{shell_quote}
use nazg.Shell.Words.{read_word, plain, read_word-shell_quote}

abbrev hostile : Bytes
hostile = codes "it's; rm -rf $HOME"

shell_quote_test : shell_quote (codes "a'b") ≡ codes "'a'\"'\"'b'"
unfolding shell_quote
shell_quote_test = refl

read_word-shell_quote_example :
    read_word plain (shell_quote hostile ++ codes " x") [] ≡ some (hostile, codes " x")
read_word-shell_quote_example = read_word-shell_quote hostile (codes " x") (refl, refl, refl, refl)
