-- ===== src/Pipeline.antt =====
-- `DocumentPipeline` (src/document_core/pipeline.py).
pub mod World
pub mod Activity
pub mod Delivery
pub mod Process
pub mod Release
pub mod Review
pub mod Ingest
