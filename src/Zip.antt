-- ===== src/Zip.antt =====
-- The zip lister: HW01-Zipjpeg/src.
pub mod Run
pub mod Detail
pub mod Header
pub mod Archive
pub mod LittleEndian
pub mod Bytes
pub mod Image
pub mod Written
pub mod Laid
pub mod Reads
pub mod Members
pub mod Listing
pub mod Accepted
pub mod Program
pub mod Safety
