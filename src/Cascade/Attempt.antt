-- ===== src/Cascade/Attempt.antt =====
-- `ConnectionAttempt` of eovpn/speed_state.py, and the counters of `attempt_summary` in
-- eovpn/cascade_controller.py.
use e_ovpn_pro.Base.{ℕ, ◌+◌, ◌-◌, Option, none, some, List, [], ◌∷◌, Text, codes, length}

-- The strings that the program writes as results, as reasons and as error codes.
pub data Tag : Type 0 where
  pending timeout auth error disconnect missing backend_error cancelled success : Tag
  config_missing no_usable_candidate : Tag

abbrev pub tag_text : Tag → Text
tag_text pending = codes "pending"
tag_text timeout = codes "timeout"
tag_text auth = codes "auth"
tag_text error = codes "error"
tag_text disconnect = codes "disconnect"
tag_text missing = codes "missing"
tag_text backend_error = codes "backend_error"
tag_text cancelled = codes "cancelled"
tag_text success = codes "success"
tag_text config_missing = codes "config_missing"
tag_text no_usable_candidate = codes "no_usable_candidate"

pub record ConnectionAttempt : Type 0 where
  pub config_id : Text
  pub started_at : ℕ
  pub timeout_seconds : ℕ
  pub finished_at : Option ℕ
  pub elapsed_seconds : ℕ
  pub result : Tag
  pub error_code : Option Tag
  pub error_message : Option Text

abbrev pub new_attempt : Text → ℕ → ℕ → ConnectionAttempt
new_attempt config_id started_at timeout_seconds = record {
  config_id = config_id;
  started_at = started_at;
  timeout_seconds = timeout_seconds;
  finished_at = none;
  elapsed_seconds = 0;
  result = pending;
  error_code = none;
  error_message = none;
}

-- How an attempt ends: its result, the code and the message.
pub record Ending : Type 0 where
  pub result : Tag
  pub code : Option Tag
  pub message : Option Text

unfoldable pub close_open :
    Option ℕ → (wall now deadline : ℕ) → Ending → ConnectionAttempt → ConnectionAttempt
close_open (some _) wall now deadline e a = a
close_open none wall now deadline e a = record a {
  finished_at = some wall;
  elapsed_seconds = now + a.timeout_seconds - deadline;
  result = e.result;
  error_code = e.code;
  error_message = e.message;
}

-- The body of `_complete_active_attempt`, at one attempt: a finished one is left as it is.
unfoldable pub close : (wall now deadline : ℕ) → Ending → ConnectionAttempt → ConnectionAttempt
unfolding close_open
close wall now deadline e a = close_open a.finished_at wall now deadline e a

pub record Summary : Type 0 where
  pub candidates : ℕ
  pub attempts : ℕ
  pub timeouts : ℕ
  pub handshake_failures : ℕ
  pub backend_errors : ℕ
  pub cancelled_ones : ℕ
  pub successes : ℕ

-- One round of the loop.
unfoldable pub count_result : Tag → Summary → Summary
count_result timeout s = record s { timeouts = s.timeouts + 1 }
count_result auth s = record s { handshake_failures = s.handshake_failures + 1 }
count_result error s = record s { handshake_failures = s.handshake_failures + 1 }
count_result disconnect s = record s { handshake_failures = s.handshake_failures + 1 }
count_result backend_error s = record s { backend_errors = s.backend_errors + 1 }
count_result missing s = record s { backend_errors = s.backend_errors + 1 }
count_result cancelled s = record s { cancelled_ones = s.cancelled_ones + 1 }
count_result success s = record s { successes = s.successes + 1 }
count_result _ s = s

unfoldable pub count_results : List ConnectionAttempt → Summary → Summary
unfolding count_result
count_results [] s = s
count_results (a ∷ rest) s = count_results rest (count_result a.result s)

unfoldable pub attempt_summary : (candidates : ℕ) → List ConnectionAttempt → Summary
attempt_summary candidates attempts = count_results attempts (record {
  candidates = candidates;
  attempts = length attempts;
  timeouts = 0;
  handshake_failures = 0;
  backend_errors = 0;
  cancelled_ones = 0;
  successes = 0;
})

abbrev pub counted : Summary → ℕ
counted s = s.timeouts + s.handshake_failures + s.backend_errors + s.cancelled_ones + s.successes
