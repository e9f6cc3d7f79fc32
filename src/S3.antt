-- ===== src/S3.antt =====
-- crates/storageprims-s3: the provider over the AWS SDK, its parts that do no I/O.
pub mod Keys
pub mod Pages
pub mod Errors
pub mod Guarded
pub mod Response
pub mod Stream
