-- ===== src/Brain.antt =====
-- brain: what it learns from failures and how it recovers from them
-- (modules/brain/src/pattern_matcher.cpp).
pub mod Levenshtein
pub mod Similarity
pub mod Recovery
pub mod Patterns
pub mod Learner
pub mod Detector
mod Examples
