-- ===== src/Shell.antt =====
-- modules/system/src/process.cpp: `shell_quote`, and `with_workdir` of modules/task/src/executor.cpp.
-- Running a process is not modelled.
pub mod Words
mod Examples
use nazg.Base.{
  ℕ, Bool, true, false, List, [], ◌∷◌, ◌++◌, Bytes, codes, is_empty, ◌==◌, if◌then◌else◌,
}

-- The text that the loop appends.
pub quote_all : Bytes → Bytes
quote_all [] = []
quote_all (c ∷ s) = (if c == b'\'' then codes "'\"'\"'" else c ∷ []) ++ quote_all s

unfoldable pub shell_quote : Bytes → Bytes
unfolding quote_all
shell_quote value = b'\'' ∷ (quote_all value ++ b'\'' ∷ [])

unfoldable pub with_workdir : Bytes → Bytes → Bytes
unfolding shell_quote
with_workdir cmd dir =
    if is_empty dir then cmd else codes "cd " ++ (shell_quote dir ++ (codes " && " ++ cmd))
