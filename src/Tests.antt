-- ===== src/Tests.antt =====
-- Each result with hypotheses, applied to a concrete input, and tests of single functions.
mod Data
mod Graph
mod Streams
mod Commands
mod Keys
mod Markup
mod Files
mod Views
mod Dumps
mod Whole
mod Results
