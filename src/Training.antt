-- ===== src/Training.antt =====
-- The captures that are kept for training (controller/em_training_captures.py): the files below `training_captures/`
-- and the operations on them. A capture is a WAV, with a file for its trim and one for its provenance beside it. A
-- file's name is the fields that `parse_filename` reads of it; a file whose name does not parse is none of them.
-- An operation that may raise `OSError` is told by an argument which calls of the file system work.
pub mod Files
pub mod Store
pub mod Label
pub mod Undo
pub mod Moves
pub mod Kept
pub mod Listing
pub mod Newest
pub mod Room
pub mod Cap
pub mod Uploads
pub mod Removal
mod Tests
