-- ===== src/Regex.antt =====
-- Regular expressions of ECMAScript, as far as the program's patterns go: the language's
-- backtracking matcher, with its order of preference, and `test` and `replace` on top of it.
mod Alphabet
mod Defs
mod Rounds
unfoldable pub use Defs.{
  fold, is_word, run, test_from, test, replace_from, replace, whole, word, plus,
}
pub use Defs.{
  Regex, empty, char, seq, alt, star, lazy, group, start, finish, boundary, Cursor, one_of, within,
  literal, literal_i, class_i, optional, up_to, exactly, first,
}
pub use Alphabet.{Within, test-whole-All}
