-- ===== src/StoryBible.antt =====
-- engine/open_hollywood_engine/artifacts/story_bible.py: the deterministic reducer of canonical
-- story state.
mod Upsert
mod MergeKeys
mod Reduce
mod Inversion
pub mod Threads
pub mod History
pub mod Canonical
unfoldable pub use Upsert.*
unfoldable pub use Reduce.*
