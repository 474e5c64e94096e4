-- ===== src/Mkfs.antt =====
-- kernel/mkfs.py: the image of a MortFS disk. Bytes has the byte arrays, Seeds the files to store, Image
-- the image and its check, and the other modules are about the image.
pub mod Bytes
pub mod Seeds
pub mod Image
mod Slices
mod Packed
mod Spec
mod Layout
mod Seeded
mod Stored
mod Checked
mod Unused
mod ReadBack
mod Made
mod Tests
