-- ===== src/Textbooks.antt =====
-- The checkers of the textbooks: learning/validate_docs.py and
-- ai/learning/ai-infrastructure/examples/check_lessons.py.
pub mod Text
pub mod Fences
pub mod Links
pub mod Headings
pub mod References
pub mod Lessons
pub mod Report
pub mod Tests
