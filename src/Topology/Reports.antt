-- ===== src/Topology/Reports.antt =====
-- internal/topology/exitreport.go and dindio_parse.go: what the log lines of a teardown read.
pub mod IoStat
pub mod Phase
pub mod Probe
