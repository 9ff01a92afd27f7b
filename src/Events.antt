-- ===== src/Events.antt =====
-- eovpn/events.py: the payloads that the backends send, and the event that each one becomes.
use e_ovpn_pro.Base.{
  Bool, true, false, Option, none, some, List, [], ◌∷◌, Text, codes, same, lower, if◌then◌else◌,
}
use e_ovpn_pro.Base.Int.{ℤ, pos}

pub data ConnectionEventKind : Type 0 where
  connected disconnected failed progress paused resumed : ConnectionEventKind

pub record ConnectionEvent : Type 0 where
  pub kind : ConnectionEventKind
  pub error : Option Text
  pub detail : Option ℤ

-- A member of a list payload: a `str`, an `int`, a `bool`, or anything else.
pub data Item : Type 0 where
  word : Text → Item
  number : ℤ → Item
  truth : Bool → Item
  thing : Item

-- The `result` of a callback: a `bool`, a list or tuple, `None`, or anything else.
pub data Payload : Type 0 where
  flag : Bool → Payload
  items : List Item → Payload
  nothing : Payload
  other : Payload

abbrev pub plain : ConnectionEventKind → ConnectionEvent
plain k = record { kind = k; error = none; detail = none }

-- In Python a `bool` is an `int`.
detail_of : List Item → Option ℤ
detail_of (number n ∷ _) = some n
detail_of (truth true ∷ _) = some (pos 1)
detail_of (truth false ∷ _) = some (pos 0)
detail_of _ = none

progress_with : List Item → ConnectionEvent
unfolding detail_of
progress_with xs = record { kind = progress; error = none; detail = detail_of xs }

list_event : List Item → ConnectionEvent
unfolding progress_with
list_event (word w ∷ []) =
    if same (lower w) (codes "pause")
    then plain paused
    else if same (lower w) (codes "resume")
    then plain resumed
    else progress_with (word w ∷ [])
list_event xs = progress_with xs

result_event : Payload → ConnectionEvent
unfolding list_event
result_event (flag true) = plain connected
result_event (flag false) = plain disconnected
result_event (items xs) = list_event xs
result_event nothing = plain disconnected
result_event other = plain progress

unfoldable pub normalize_connection_event : Payload → Option Text → ConnectionEvent
unfolding result_event
normalize_connection_event result (some e) = record { kind = failed; error = some e; detail = none }
normalize_connection_event result none = result_event result
