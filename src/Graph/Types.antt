-- ===== src/Graph/Types.antt =====
-- The data of the editor: nodes and edges of the canvas (the parts of React Flow's `Node` and `Edge`
-- that the editor reads or writes), and the steps of a saved graph from types/index.ts.
-- Coordinates are integers; the colour of an edge stands for its marker and stroke, `dashed` for the
-- stroke pattern '5,5'.
use multi_robot_supervision.Prelude.{String, Option, Bool, List}
use multi_robot_supervision.Prelude.Int.{ℤ}
use multi_robot_supervision.Prelude.Json.{Json}
use multi_robot_supervision.Outcome.{Outcome, EndState, OutcomeTransition}

-- The keys of `nodeTypes`.
pub data NodeKind : Type 0 where
  action event retry transition : NodeKind

pub data CapabilityKind : Type 0 where
  action service : CapabilityKind

pub data TerminalSubtype : Type 0 where
  end error warning : TerminalSubtype

pub record Position : Type 0 where
  pub x : ℤ
  pub y : ℤ

pub record Agent : Type 0 where
  pub id : String
  pub name : String

-- `node.data`
pub record NodeData : Type 0 where
  pub label : String
  pub subtype : String
  pub color : String
  pub action_type : Option String
  pub server : Option String
  pub capability_kind : Option String
  pub success_states : List String
  pub failure_states : List String
  pub end_states : List EndState
  pub success_state : String
  pub failure_state : String
  pub initial_state : String
  pub params : List (String × Json)
  pub field_sources : List (String × Json)
  pub waypoint_id : Option String
  pub job_name : String
  pub resource_acquire : List String
  pub resource_release : List String
  pub final_state : Option String
  pub debug_message : Option String
  pub max_retries : Option ℤ
  pub backoff_ms : Option ℤ
  pub available_states : List String
  pub available_agents : List Agent
  pub is_editing : Bool

pub record Node : Type 0 where
  pub id : String
  pub kind : NodeKind
  pub position : Position
  pub drag_handle : Option String
  pub selected : Bool
  pub content : NodeData

pub record Edge : Type 0 where
  pub id : String
  pub source : String
  pub target : String
  pub source_handle : Option String
  pub target_handle : Option String
  pub outcome : Option Outcome
  pub color : String
  pub dashed : Bool
  pub selected : Bool

-- `RetryNodeUIPosition`
pub record RetryPosition : Type 0 where
  pub x : Option ℤ
  pub y : Option ℤ

-- `TransitionOnFailureConfig`, with the two keys of older graphs that loading still reads.
pub record OnFailureConfig : Type 0 where
  pub retry : Option ℤ
  pub backoff_ms : Option ℤ
  pub backoff_ms_legacy : Option ℤ
  pub fallback : Option String
  pub next : Option String
  pub ui : Option RetryPosition

-- `on_success`: a step id, or a `TransitionCondition` with its `next`.
pub data OnSuccess : Type 0 where
  goto : String → OnSuccess
  condition : Option String → OnSuccess

pub data OnFailure : Type 0 where
  goto : String → OnFailure
  config : OnFailureConfig → OnFailure

pub record Transition : Type 0 where
  pub on_success : Option OnSuccess
  pub on_failure : Option OnFailure
  pub on_outcomes : Option (List OutcomeTransition)

pub data ParamsSource : Type 0 where
  waypoint inline dynamic mapped : ParamsSource

pub record StepParams : Type 0 where
  pub source : ParamsSource
  pub waypoint_id : Option String
  pub content : Option (List (String × Json))
  pub field_sources : Option (List (String × Json))

pub record StepAction : Type 0 where
  pub type : String
  pub server : Option String
  pub capability_kind : Option String
  pub params : StepParams

-- `GraphStep`: the keys that saving writes and loading reads. The `camel_` fields are the keys
-- `endStates`, `successStates` and `failureStates`.
pub record Step : Type 0 where
  pub id : String
  pub name : Option String
  pub ui : Option Position
  pub job_name : Option String
  pub is_terminal : Bool
  pub terminal_type : Option String
  pub alert : Bool
  pub message : Option String
  pub camel_end_states : Option (List EndState)
  pub end_states : Option (List EndState)
  pub camel_success_states : Option (List String)
  pub success_states : Option (List String)
  pub camel_failure_states : Option (List String)
  pub failure_states : Option (List String)
  pub action : Option StepAction
  pub transition : Option Transition
  pub resource_acquire : List String
  pub resource_release : List String
