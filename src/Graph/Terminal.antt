-- ===== src/Graph/Terminal.antt =====
-- Terminal nodes: the subtype of an event node against the terminal step that is saved for it
-- (`eventSubtypeToTerminalPayload`, `terminalStepToEventSubtype` of pages/ActionGraph/index.tsx).
use multi_robot_supervision.Prelude.{
  String, Option, none, some, Bool, true, false, ◌&&◌, ◌||◌, ◌==◌, ◌≡◌, refl, if◌then◌else◌, not,
  to_lower, trim, or_text, present,
}
use multi_robot_supervision.Graph.Types.{TerminalSubtype, end, error, warning}

pub record TerminalPayload : Type 0 where
  pub terminal_type : String
  pub alert : Bool
  pub message : Option String

unfoldable pub event_subtype_to_terminal_payload : TerminalSubtype → Option String → TerminalPayload
event_subtype_to_terminal_payload error message = record {
  terminal_type = "failure";
  alert = true;
  message = present (some (trim (or_text message "")));
}
event_subtype_to_terminal_payload warning message = record {
  terminal_type = "success";
  alert = true;
  message = present (some (trim (or_text message "")));
}
event_subtype_to_terminal_payload end message = record {
  terminal_type = "success";
  alert = false;
  message = present (some (trim (or_text message "")));
}

-- `terminalStepToEventSubtype`, on the two fields that it reads.
unfoldable pub terminal_step_to_event_subtype : Option String → Bool → TerminalSubtype
terminal_step_to_event_subtype terminal_type alert =
    let lower = to_lower (or_text terminal_type "") in
    if lower == "failure"
    then error
    else if lower == "warning" || alert && not (lower == "failure")
    then warning
    else end

-- The name of a subtype on a node.
unfoldable pub subtype_text : TerminalSubtype → String
subtype_text end = "End"
subtype_text error = "Error"
subtype_text warning = "Warning"

-- subtype === 'End' || subtype === 'Error' || subtype === 'Warning'
unfoldable pub terminal_subtype : String → Option TerminalSubtype
terminal_subtype s =
    if s == "End"
    then some end
    else if s == "Error"
    then some error
    else if s == "Warning"
    then some warning
    else none

-- Saving a terminal node and loading it again keeps its subtype, whatever its message.
pub terminal_step_to_event_subtype-payload :
    (s : TerminalSubtype) (message : Option String)
    → terminal_step_to_event_subtype
        (some (event_subtype_to_terminal_payload s message).terminal_type)
        (event_subtype_to_terminal_payload s message).alert
      ≡ s
unfolding terminal_step_to_event_subtype event_subtype_to_terminal_payload to_lower
terminal_step_to_event_subtype-payload end message = refl
terminal_step_to_event_subtype-payload error message = refl
terminal_step_to_event_subtype-payload warning message = refl
