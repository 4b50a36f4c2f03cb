-- ===== src/V1/SkillSet.antt =====
-- api/v1/clawskillset_types.go
use hackaway_repo.Base.{String, List}
use hackaway_repo.Kube.Objects.{ObjectMeta}

pub record SkillEntry : Type 0 where
  pub name : String
  pub content : String

pub record ClawSkillSetSpec : Type 0 where
  pub skills : List SkillEntry

pub record ClawSkillSet : Type 0 where
  pub meta : ObjectMeta
  pub spec : ClawSkillSetSpec
