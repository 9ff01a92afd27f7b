-- ===== src/Base.antt =====
-- The names that the other modules share: the libraries', passed on, and those of four children.
mod Tests
mod Lists
mod Strings
mod Words
mod Numbers
mod Dict
pub mod Int
pub use Tests.*
pub use Lists.*
pub use Strings.{Text, codes}
unfoldable pub use Strings.{same, lower_char, lower, is_prefix, contains, starts_with, ends_with}
unfoldable pub use Numbers.{print_number}
pub use Numbers.{read_number-print_number, all_digits-print_number, print_number-IsWord}
pub use Words.{NoSpace, IsWord, join, split_words-join, strip-join}
pub use Strings.{same_iff, same_refl, is_prefix-append, contains-append}
unfoldable pub use Strings.{is_space, strip_left, strip, split_words, all_digits, read_number}
unfoldable pub use Dict.{lookup, insert}
pub use Dict.{lookup-insert}
pub use Prim.Native.Nat.{ℕ, zero, suc, ◌+◌, ◌-◌, ◌*◌, ◌/◌, ◌%◌, ◌≤◌, ◌<◌, min, max}
pub use mathlib.Core.Path.{◌≡◌, refl, sym, ap, ◌∙◌}
pub use mathlib.Core.Logic.{◌≢◌, ◌↔◌, ◌⊎◌, inl, inr}
pub use mathlib.Core.Bool.{Bool, true, false, not, ◌&&◌, ◌||◌}
pub use mathlib.Core.Option.{Option, none, some}
pub use mathlib.Core.List.{List, [], ◌∷◌, ◌++◌, map}
pub use native.Mathlib.Omega.{arith}
