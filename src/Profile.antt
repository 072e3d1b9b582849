-- ===== src/Profile.antt =====
-- Importing the profile of a task distributor (`handleImportDistributorProfile` of
-- pages/PDDL/index.tsx): the resources that are created anew, the tasks and agents that are selected, the
-- resources that the tasks require, and the scopes of the goals. `null` and `undefined` are both `none`.
pub mod Resources
pub mod Tokens
pub mod Rebind
pub mod Scopes
pub mod Scoped
pub mod Linked
pub mod Instances
pub mod Rebound
mod Tests
use multi_robot_supervision.Prelude.{String, Option}

-- A resource of the profile, as it was read.
pub record RawResource : Type 0 where
  pub id : Option String
  pub name : Option String
  pub kind : Option String
  pub parent_name : Option String
  pub description : Option String

-- An element of `profileResources`.
pub record ProfileResource : Type 0 where
  pub id : Option String
  pub name : String
  pub kind : String
  pub parent_name : Option String
  pub description : Option String

-- A resource of the distributor.
pub record Resource : Type 0 where
  pub id : String
  pub name : String
  pub kind : String
  pub parent_resource_id : Option String
  pub description : Option String

-- What a profile keeps of a task or an agent, and one that the page knows.
pub record Ref : Type 0 where
  pub id : Option String
  pub name : Option String

pub record Known : Type 0 where
  pub id : String
  pub name : String
