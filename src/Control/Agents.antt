-- ===== src/Control/Agents.antt =====
-- The agents that a request names, and switching one of them.
use multi_robot_supervision.Prelude.{
  String, Bool, true, List, [], ◌∷◌, ◌&&◌, not, ◌==◌, ◌≡◌, refl, sym, subst, ap, ◌∙◌, arith, eq_iff,
  if◌then◌else◌, has, set_add, add_all, filter, uniq, length, has-append, has-uniq, IsDistinct,
  uniq-IsDistinct, All, eqb, Bool-cases, inl, inr, if_keeps,
}
use multi_robot_supervision.Prelude.Keeps.{filter-All, filter-id, uniq-id, All-uniq}
use multi_robot_supervision.Control.{AgentEntry, Page}
use multi_robot_supervision.Control.Selection.{
  ids_of, resolve_from, resolved_selected_agent_ids, toggle_agent,
}
use multi_robot_supervision.Control.Requests.{settle_agents}

resolve_from-add_all :
    (known resolved ids : List String)
    → resolve_from known resolved ids ≡ add_all resolved (filter (λ id. has id known) ids)
unfolding resolve_from
resolve_from-add_all known resolved [] = refl
resolve_from-add_all known resolved (id ∷ ids) = elim (Bool-cases (has id known)) [
  | inl h ↦ ground (arith, resolve_from-add_all known (set_add resolved id) ids)
  | inr h ↦ ground (arith, resolve_from-add_all known resolved ids)
]

has-filter :
    (x : String) (p : String → Bool) (xs : List String) → has x (filter p xs) ≡ (has x xs && p x)
has-filter x p [] = refl
has-filter x p (y ∷ ys) = ground (arith, has-filter x p ys, eq_iff y x)

pub resolved-uniq :
    (page : Page)
    → resolved_selected_agent_ids page
      ≡ uniq (filter (λ id. has id (ids_of (page.agents))) (page.selected_agent_ids))
unfolding resolved_selected_agent_ids uniq
resolved-uniq page = resolve_from-add_all (ids_of (page.agents)) [] (page.selected_agent_ids)

pub has-resolved :
    (page : Page) (x : String)
    → has x (resolved_selected_agent_ids page)
      ≡ (has x (page.selected_agent_ids) && has x (ids_of (page.agents)))
has-resolved page x =
    let known = λ (id : String). has id (ids_of (page.agents)) in
    ap (has x) (resolved-uniq page)
    ∙ has-uniq x (filter known (page.selected_agent_ids))
    ∙ has-filter x known (page.selected_agent_ids)

-- The agents of a request are the selected ones that are known, in the order of the selection, each
-- once: the loop of `resolvedSelectedAgentIds` computes what `toggleAgent` computes by a set.
pub resolved_selected_agent_ids-uniq :
    (page : Page)
    → (resolved_selected_agent_ids page
        ≡ uniq (filter (λ id. has id (ids_of (page.agents))) (page.selected_agent_ids)))
      × IsDistinct (resolved_selected_agent_ids page)
resolved_selected_agent_ids-uniq page =
    let known = λ (id : String). has id (ids_of (page.agents)) in
    (
      resolved-uniq page,
      subst IsDistinct (sym (resolved-uniq page))
          (uniq-IsDistinct (filter known (page.selected_agent_ids))),
    )

has-toggle :
    (agents : List AgentEntry) (id x : String) (prev : List String)
    → has x (toggle_agent agents id prev) ≡ (
        if id == x
        then not (has id prev && has id (ids_of agents))
        else has x prev && has x (ids_of agents))
unfolding toggle_agent
has-toggle agents id x prev =
    let known = λ (a : String). has a (ids_of agents) in
    let sanitized = uniq (filter known prev) in
    ground (
      arith,
      has-uniq x (filter known prev),
      has-uniq id (filter known prev),
      has-filter x known prev,
      has-filter id known prev,
      has-filter x (λ a. not (a == id)) sanitized,
      has-append x sanitized (id ∷ []),
      eq_iff id x,
      eq_iff x id,
    )

-- Switching an agent changes whether a request names this agent, if the agent is known, and leaves the
-- other agents that a request names as they are.
pub resolved_selected_agent_ids-toggle_agent :
    (page : Page) (id x : String)
    → has x (
        resolved_selected_agent_ids (record page {
          selected_agent_ids = toggle_agent (page.agents) id (page.selected_agent_ids);
        }))
      ≡ (if id == x
          then has id (ids_of (page.agents)) && not (has id (resolved_selected_agent_ids page))
          else has x (resolved_selected_agent_ids page))
resolved_selected_agent_ids-toggle_agent page id x = ground (
  arith,
  has-resolved
      (record page { selected_agent_ids = toggle_agent (page.agents) id (page.selected_agent_ids) })
      x,
  has-resolved page x,
  has-resolved page id,
  has-toggle (page.agents) id x (page.selected_agent_ids),
  eq_iff id x,
)

-- Resolving what was resolved changes nothing.
pub resolved-settled :
    (page : Page)
    → resolved_selected_agent_ids (settle_agents page) ≡ resolved_selected_agent_ids page
unfolding settle_agents
resolved-settled page =
    let known = λ (id : String). has id (ids_of (page.agents)) in
    let resolved = resolved_selected_agent_ids page in
    let kept = filter known (page.selected_agent_ids) in
    let again = resolved-uniq (record page { selected_agent_ids = resolved }) in
    let all : All (λ x. known x ≡ true) resolved =
      subst (All (λ x. known x ≡ true)) (sym (resolved-uniq page))
        (All-uniq (λ x. known x ≡ true) kept (filter-All known (page.selected_agent_ids))) in
    let distinct = (resolved_selected_agent_ids-uniq page).1 in
    if_keeps {A = Page} (λ p. resolved_selected_agent_ids p ≡ resolved)
      (eqb (length resolved) (length (page.selected_agent_ids))) refl
      (again ∙ ap uniq (filter-id known resolved all) ∙ uniq-id resolved distinct)
