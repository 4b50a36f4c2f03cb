-- ===== src/V1.antt =====
-- api/v1: the six custom resources. Each child holds one of the `*_types.go` files. The JSON tags,
-- the validation markers and the generated deep copies are left out; `Conditions`, which no
-- controller writes, too.
pub mod Agent
pub mod Channel
pub mod Gateway
pub mod Policy
pub mod SkillSet
pub mod Observability
