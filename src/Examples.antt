-- ===== src/Examples.antt =====
-- The theorems at concrete inputs, and runs of the models.
mod MapfileRuns
mod RangeLists
mod ReadErrors
mod Loading
mod Copies
mod Sweeps
mod Sections
mod Passes
mod Producing
mod Recoveries
