-- ===== src/Application.antt =====
-- The command line of eovpn/application.py and the language of eovpn/main_window.py.
use e_ovpn_pro.Base.{
  ℕ, Bool, true, false, Option, none, some, List, [], ◌∷◌, Text, codes, same, any, all_digits,
  read_number, leb, if◌then◌else◌,
}

abbrev pub supported_languages : List Text
supported_languages = codes "en" ∷ codes "fa" ∷ []

-- `normalize_language_value`, for the text of the value, `none` where reading it raises
unfoldable pub normalize_language_value : Option Text → Option Text
normalize_language_value none = none
normalize_language_value (some candidate) =
    if any (λ language. same language candidate) supported_languages then some candidate else none

-- what `do_command_line` configures the log with
pub data LogLevel : Type 0 where
  by_number : ℕ → LogLevel
  by_name : Text → LogLevel
  unchanged : LogLevel

abbrev pub level_names : List Text
level_names =
    codes "CRITICAL"
    ∷ codes "ERROR"
    ∷ codes "WARNING"
    ∷ codes "INFO"
    ∷ codes "DEBUG"
    ∷ codes "NOTSET"
    ∷ []

-- the level that the value of `--debug` names
unfoldable pub debug_level : Text → LogLevel
debug_level debug_lvl =
    if all_digits debug_lvl
    then if leb (read_number debug_lvl) 50 then by_number (read_number debug_lvl) else unchanged
    else if any (λ name. same name debug_lvl) level_names
    then by_name debug_lvl
    else unchanged

abbrev pub level_of : Option Text → LogLevel
level_of none = unchanged
level_of (some debug_lvl) = debug_level debug_lvl

-- `do_command_line`: the level, and whether the application is activated
unfoldable pub do_command_line : Bool → Option Text → LogLevel × Bool
unfolding debug_level
do_command_line true debug = (unchanged, false)
do_command_line false debug = (level_of debug, true)
