-- ===== src/Exporter.antt =====
-- internal/exporter: the cells of the spreadsheets, and what the HTML reports show. Writing an xlsx
-- file and executing the templates are not modelled.
pub mod Excel
pub mod Html
