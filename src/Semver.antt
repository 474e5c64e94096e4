-- ===== src/Semver.antt =====
-- mort/project.py: semantic versions. Version is `parse_semver`, Compare is `_compare_semver`, and the
-- other modules are about the answers of the comparison.
pub mod Version
pub mod Compare
mod Identifiers
pub mod Swap
pub mod Same
mod Order
pub mod Range
pub mod Select
mod Parsed
mod Maximum
mod Tests
