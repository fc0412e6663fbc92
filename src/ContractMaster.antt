-- ===== src/ContractMaster.antt =====
-- services/contract-master/internal: parser/master_parser.go and ingest/csv_loader.go.
pub mod Cells
pub mod Lots
pub mod Rows
pub mod Valid
