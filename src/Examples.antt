-- ===== src/Examples.antt =====
-- The properties at concrete inputs.
mod DdlRuns
mod LinkRuns
mod PlanRuns
mod RoundingRuns
mod ReplayRuns
mod ForwardRuns
mod ResultRuns
mod SequenceRuns
mod SaveRuns
mod SessionRuns
mod ParseRuns
mod SqlRuns
mod CompareRuns
mod CoordinationRuns
mod StageRuns
mod UtilsRuns
