-- ===== src/Graph/Validate.antt =====
-- Checking a graph before it is saved, and the save button (`validateGraph` and `handleSave` of
-- pages/ActionGraph/index.tsx). `alert`, `confirm` and the mutation that stores the template stand as
-- values of the run; the user's answer to `confirm` is an argument.
pub mod Laws
use multi_robot_supervision.Prelude.{
  String, Option, none, some, Bool, true, false, List, [], ◌∷◌, ◌++◌, ◌&&◌, ◌||◌, ◌==◌, ◌<>◌,
  if◌then◌else◌, find?, any, filter, is_empty, not, or_text, is_present, is_blank, includes, join,
}
use multi_robot_supervision.Graph.Types.{NodeKind, Node, Edge}
use multi_robot_supervision.Graph.Collect.{start_node_id, outgoing}
use multi_robot_supervision.Graph.Save.{Saved, convert_graph_to_steps}

pub record Problem : Type 0 where
  pub node_id : String
  pub node_name : String
  pub errors : List String

abbrev pub type_error : String
type_error = "Action Type이 설정되지 않았습니다"

abbrev pub server_error : String
server_error = "Action Server가 설정되지 않았습니다"

abbrev pub edge_error : String
edge_error = "다음 노드로의 연결(Edge)이 없습니다"

abbrev pub start_problem : Problem
start_problem = record {
  node_id = start_node_id;
  node_name = "Start";
  errors = "시작 노드가 다른 노드에 연결되어 있지 않습니다" ∷ [];
}

abbrev pub empty_problem : Problem
empty_problem = record {
  node_id = "__graph__";
  node_name = "Graph";
  errors = "그래프에 Action 노드가 없습니다" ∷ [];
}

-- if (b) list.push(x)
abbrev pub push_if {ℓ} : {A : Type ℓ} → Bool → A → List A → List A
push_if b x rest = if b then x ∷ rest else rest

abbrev pub is_action : Node → Bool
is_action n = elim n.kind [ NodeKind.action ↦ true | _ ↦ false ]

abbrev pub lacks_type : Node → Bool
lacks_type n = not (is_present n.content.action_type) && is_blank n.content.subtype

abbrev pub lacks_server : Node → Bool
lacks_server n = not (is_present n.content.server)

unfoldable pub node_errors : List Edge → Node → List String
node_errors edges n =
    push_if (lacks_type n) type_error (
      push_if (lacks_server n) server_error
        (push_if (is_empty (outgoing edges n.id)) edge_error []))

unfoldable pub node_problems : List Edge → List Node → List Problem
unfolding node_errors
node_problems edges [] = []
node_problems edges (n ∷ ns) =
    let found = node_errors edges n in
    push_if (not (is_empty found))
      (record { node_id = n.id; node_name = or_text (some n.content.label) n.id; errors = found })
      (node_problems edges ns)

-- !edges.find(e => e.source === START_NODE_ID)
abbrev pub is_missing : Option Edge → Bool
is_missing none = true
is_missing (some e) = false

unfoldable pub validate_graph : List Node → List Edge → List Problem
unfolding node_problems
validate_graph nodes edges =
    let actions = filter is_action nodes in
    push_if (is_missing (find? (λ e. e.source == start_node_id) edges)) start_problem
      (push_if (is_empty actions) empty_problem (node_problems edges actions))

-- `hasBlockingErrors`
unfoldable pub has_blocking_errors : List Problem → Bool
has_blocking_errors =
    any (λ p. any (λ text. includes text "Action Type" || includes text "Action Server") p.errors)

unfoldable pub problem_lines : List Problem → List String
problem_lines [] = []
problem_lines (p ∷ ps) = ("• " <> p.node_name <> ": " <> join ", " p.errors) ∷ problem_lines ps

-- What the button sends to `saveTemplate`, with the canvas kept for `lastSavedStateRef`. The planning
-- task and the session id go along unchanged and are left out; `saveStatus` becomes 'saving' exactly
-- when something is stored.
pub record Stored : Type 0 where
  pub template : String
  pub saved : Saved
  pub canvas : List Node × List Edge

pub record SaveRun : Type 0 where
  pub validation_errors : Option (List Problem)
  pub alert : Option String
  pub question : Option String
  pub stored : Option Stored

abbrev idle_run : SaveRun
idle_run = record { validation_errors = none; alert = none; question = none; stored = none }

unfoldable pub store : List Node → List Edge → String → Option Stored
store nodes edges template = some (record {
  template = template;
  saved = convert_graph_to_steps nodes edges;
  canvas = (nodes, edges);
})

unfoldable pub refusal : List Problem → String
refusal problems = "저장 불가: 필수 필드가 누락되었습니다.\n\n" <> join "\n" (problem_lines problems)

unfoldable pub warning : List Problem → String
warning problems =
    "경고: 일부 문제가 발견되었습니다.\n\n" <> join "\n" (problem_lines problems) <> "\n\n그래도 저장하시겠습니까?"

unfoldable pub handle_save : (String → Bool) → List Node → List Edge → Option String → SaveRun
unfolding has_blocking_errors validate_graph store refusal warning
handle_save confirm nodes edges none = idle_run
handle_save confirm nodes edges (some template) =
    if is_blank template
    then idle_run
    else let problems = validate_graph nodes edges in
      let checked = record idle_run { validation_errors = some problems } in
      let question = warning problems in
      if is_empty problems
      then record checked { stored = store nodes edges template }
      else if has_blocking_errors problems
      then record checked { alert = some (refusal problems) }
      else if confirm question
      then record checked { question = some question; stored = store nodes edges template }
      else record checked { question = some question }
