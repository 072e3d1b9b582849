-- ===== src/Control/Answers.antt =====
-- What errors of the server leave behind.
use multi_robot_supervision.Prelude.{
  String, none, some, true, false, ◌≡◌, ◌⊎◌, refl, arith, sym, subst, ◌∙◌, Option-cases, inl, inr,
}
use multi_robot_supervision.Control.{ApiError, Page}
use multi_robot_supervision.Control.Selection.{
  resolved_selected_agent_ids, selected_behavior_tree_ids,
}
use multi_robot_supervision.Control.Buttons.{no_tasks, no_agents, can_solve, can_execute}
use multi_robot_supervision.Control.Requests.{
  Answer, Server, Request, request_of, is_incomplete, preview_with, handle_preview, solve_with,
  solve_created, handle_save_and_solve, start_solving, settle_agents, failed_plan, previewed_page,
  solved_page, done,
}
use multi_robot_supervision.Control.Agents.{resolved-settled}

-- The page after solving has failed.
abbrev failed_page : ApiError → Page → Page
failed_page err page = done (record (start_solving page) { plan = some (failed_plan err) })

can_solve-settle_agents : (page : Page) → can_solve (settle_agents page) ≡ can_solve page
unfolding settle_agents can_solve no_agents no_tasks selected_behavior_tree_ids
can_solve-settle_agents page = ground (arith, resolved-settled page)

can_solve-failed_page :
    (err : ApiError) (page : Page) → can_solve (failed_page err page) ≡ can_solve page
unfolding start_solving can_solve no_agents no_tasks selected_behavior_tree_ids
    resolved_selected_agent_ids
can_solve-failed_page err page = can_solve-settle_agents page

can_execute-failed_page :
    (err : ApiError) (page : Page) → can_execute (failed_page err page) ≡ false
unfolding can_execute
can_execute-failed_page err page = ground arith

handle_preview-failed_page :
    (server : Server) (err : ApiError) (page : Page)
    → can_solve page ≡ true
    → ((r : Request) → server.preview r ≡ Answer.thrown err)
    → (handle_preview server page).page ≡ failed_page err page
unfolding handle_preview preview_with previewed_page can_solve is_incomplete
handle_preview-failed_page server err page able fails = elim (Option-cases (page.distributor)) [
  | inl h ↦ absurd (ground (arith, able))
  | inr (d, h) ↦ ground (arith, able, fails (request_of d page))
]

-- The server throws one error when the problem of the request is created, or when it is solved.
abbrev pub SolvingFails : Server → ApiError → Request → Type 0
SolvingFails server err request =
    (server.create_problem request ≡ Answer.thrown err)
    ⊎ ((problem : String) × (server.create_problem request ≡ Answer.answered problem)
        × (server.solve_problem problem ≡ Answer.thrown err))

solve_created-failed :
    (server : Server) (err : ApiError) (request : Request) (page : Page)
    → SolvingFails server err request
    → (solve_created server request (server.create_problem request) page).page
      ≡ done (record page { plan = some (failed_plan err) })
unfolding solve_created solved_page
solve_created-failed server err request page (inl thrown) = rw thrown refl
solve_created-failed server err request page (inr (problem, created, thrown)) =
    rw (created, thrown) refl

handle_save_and_solve-failed_page :
    (server : Server) (err : ApiError) (page : Page)
    → can_solve page ≡ true
    → ((r : Request) → SolvingFails server err r)
    → (handle_save_and_solve server page).page ≡ failed_page err page
unfolding handle_save_and_solve solve_with can_solve is_incomplete
handle_save_and_solve-failed_page server err page able fails =
    elim (Option-cases (page.distributor)) [
      | inl h ↦ absurd (ground (arith, able))
      | inr (d, h) ↦
          let request = request_of d page in
          ground (
            arith,
            able,
            solve_created-failed server err request (start_solving page) (fails request),
          )
    ]

-- What a failure leaves: no solving, an invalid plan with the error's message, no execution, nothing to
-- execute, and the way to solve again.
abbrev pub HasFailed : ApiError → Page → Type 0
HasFailed err page =
    (page.is_solving ≡ false)
    × (page.plan ≡ some (failed_plan err))
    × (page.execution_id ≡ none)
    × (can_execute page ≡ false)
    × (can_solve page ≡ true)

failed_page-HasFailed :
    (err : ApiError) (page : Page) → can_solve page ≡ true → HasFailed err (failed_page err page)
unfolding start_solving
failed_page-HasFailed err page able =
    (refl, refl, refl, can_execute-failed_page err page, can_solve-failed_page err page ∙ able)

-- If solving is allowed and the server throws, for `handlePreview` at the preview, and for
-- `handleSaveAndSolve` at the creation of the problem or, once it is created, at its solution, then each
-- of them leaves a page that is no longer solving, shows an invalid plan with the error's message and no
-- execution, does not allow to execute, and allows to solve again.
pub handle_preview-HasFailed :
    (server : Server) (err : ApiError) (page : Page)
    → can_solve page ≡ true
    → ((r : Request) → server.preview r ≡ Answer.thrown err)
    → ((r : Request) → SolvingFails server err r)
    → HasFailed err ((handle_preview server page).page)
      × HasFailed err ((handle_save_and_solve server page).page)
handle_preview-HasFailed server err page able previews solving =
    let failed = failed_page-HasFailed err page able in
    (
      subst (HasFailed err) (sym (handle_preview-failed_page server err page able previews)) failed,
      subst (HasFailed err) (sym (handle_save_and_solve-failed_page server err page able solving))
          failed,
    )
