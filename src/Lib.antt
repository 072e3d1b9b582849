-- ===== src/Lib.antt =====
-- The frontend of the multi-robot supervision system: the editor of behaviour trees and the planning
-- page (central_server/frontend/src). The editor keeps a canvas of nodes and edges (React Flow); the user
-- draws and deletes edges, a check runs before saving, saving turns the canvas into the steps of a graph,
-- and loading turns the steps back into a canvas. A session edits a task while it holds the task's lock,
-- which a timer keeps alive; the messages of other sessions come over a socket. The planning page merges
-- the specifications of the chosen tasks, manages the states and resources of a task distributor, imports
-- its profile, solves and executes plans, and shows for each agent which task of the plan runs.
--
-- Files, with paths below central_server/frontend/src:
--   Prelude and its children: names of the libraries, tests, lists, texts, JavaScript maps, decimal
--     numerals, integers, JSON values, trimming.
--   Outcome: outcomes and end states (pages/ActionGraph/index.tsx: normalizeOutcome, inferOutcome,
--     categorizeEndStates, buildEndStates, buildEndStatesFromOutcomes).
--   Graph.Types: nodes, edges and steps (types/index.ts). Graph.Capability and Graph.Terminal: kinds,
--     servers and terminal events. Graph.Collect and Graph.Save: convertGraphToSteps. Graph.Load:
--     convertActionGraphToGraph.
--     Graph.RoundTrip: loading, then saving. Graph.Connect: onConnect. Graph.Edit: deleteEdge,
--     onEdgesChange and deleteSelectedElements. Graph.Validate: validateGraph and handleSave. Graph.Drop:
--     onDrop.
--   Lock: the edit lock (pages/ActionGraph/index.tsx: acquireLock, forceUnlock, releaseLock, the effects
--     on the lock's status and events; api/client.ts: behaviorTreeLockApi). Lock.Steps: the page as a
--     machine of events.
--   Socket: who listens to the server's messages, and the connection (contexts/WebSocketContext.tsx).
--   Frames: hasAncestorFrame and collectToolFramesFromTransforms (pages/ActionGraph/nodes/components/
--     parameter-editors/ParameterEditorFactory.tsx).
--   Sequence: statuses, blocks and the timeline of an agent (pages/PDDL/index.tsx:
--     mergeSequenceStatus, plannedTaskBlocksByAgent, executionTaskBlocksByAgent, realtimeTaskRows).
--   Planning: mergePlanningTasks, normalizePlanningTask, filterPlanningTaskForDistributor, instance
--     names, state templates and state merge policies (both index.tsx files).
--   Control: what a request names, what the buttons allow, handlePreview, handleSaveAndSolve,
--     handleExecute, handleStartRealtime and handleStopRealtime (pages/PDDL/index.tsx).
--   Profile: handleImportDistributorProfile (pages/PDDL/index.tsx).
--   Node: what a node reads from a schema, and the end states that it shows (pages/ActionGraph/nodes/
--     utils.ts and StateActionNode.tsx).
--   User: the user and the session of the browser (stores/userStore.ts).
--
-- State is passed explicitly: a handler that calls setNodes, setEdges or a ref takes the old value and
-- returns the new one. An answer of the server is an argument, and a call that throws is a value; where
-- answers may come late, in any order, a step relation says what may happen, and releaseLock takes what
-- happens to the page while it waits as functions. Loops over arrays are
-- structural recursion; printing a numeral has the number and one as fuel, and the searches through
-- frames have the number of links and of first frames, which is enough since every pass takes a frame off
-- the queue and the links of a frame are pushed once. A JavaScript Map or Set is a list in the order of
-- insertion. Texts are sequences of code points, with case mapped on the ASCII letters; coordinates
-- and retry counts are integers, orders natural numbers. `null`, `undefined` and a missing key are `none`.
-- React Flow's addEdge and its application of changes are parameters, with what its documentation says
-- of addEdge as the record Graph.Connect.IsAddEdge.
--
-- Not modelled: rendering, the drafts in the browser's storage, translations, the suggestion lists of the
-- planning editor, the colours of the nodes, the layout of the viewer, whose arithmetic is on doubles,
-- functions without a caller, and the central server, a program of its own.
pub mod Prelude
pub mod Outcome
pub mod Graph
pub mod Sequence
pub mod Planning
pub mod Lock
pub mod Frames
pub mod Control
pub mod Socket
pub mod Profile
pub mod User
pub mod Node
