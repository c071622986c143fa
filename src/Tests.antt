-- ===== src/Tests.antt =====
-- Concrete runs of the models, and the theorems at concrete inputs.
mod TaskMachineTests
mod TaskServiceTests
mod JournalTests
mod DispatchTests
mod BackgroundJobsTests
mod PollsTests
mod DecisioningTests
mod AuthenticationTests
mod RetrievalTests
