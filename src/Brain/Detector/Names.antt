-- ===== src/Brain/Detector/Names.antt =====
-- Which file names a pattern stands for.
use nazg.Base.{◌≡◌, ◌++◌, Bytes}

-- A text with something in front of it.
abbrev pub EndsWith : Bytes → Bytes → Type 0
EndsWith suffix name = (before : Bytes) × (name ≡ before ++ suffix)

abbrev pub BeginsWith : Bytes → Bytes → Type 0
BeginsWith prefix name = (behind : Bytes) × (name ≡ prefix ++ behind)
