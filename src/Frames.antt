-- ===== src/Frames.antt =====
-- Coordinate frames of a robot: names, ancestors in the tree of transforms, and the frames that a tool
-- field offers (`normalizeFrameName`, `getFrameBaseName`, `hasAncestorFrame`,
-- `collectToolFramesFromTransforms` and `isToolFrameField` of
-- pages/ActionGraph/nodes/components/parameter-editors/ParameterEditorFactory.tsx). A map from frames to
-- sets of frames is an association list; the searches run on fuel, which is shown to suffice.
pub mod Text
pub mod Search
pub mod Tools
pub mod Reached
pub mod Chains
pub mod Closed
pub mod Gathered
pub mod Offered
pub mod Laws
mod Tests
