-- ===== src/Diff.antt =====
-- crates/ramo-core/src/diff/model.rs, with the records of crates/ramo-core/src/agent.rs that a
-- file carries: the data of a diff. Numbers are `u32` line numbers and `usize` counts.
pub mod Header
pub mod Hunks
pub mod Paths
pub mod Files
use ramo.Prelude.Text.{Text, codes}
use ramo.Prelude.{ℕ, Bool, Option, true, List, false}

pub record FileStats : Type 0 where
  pub additions : ℕ
  pub deletions : ℕ

pub data LineType : Type 0 where
  context addition deletion : LineType

pub data MovedLineKind : Type 0 where
  old_moved old_moved_dimmed new_moved new_moved_dimmed : MovedLineKind

-- `LineType::prefix`.
unfoldable pub prefix : LineType → Text
prefix addition = codes "+"
prefix deletion = codes "-"
prefix context = codes " "

-- `==` of line types.
unfoldable pub same_type : LineType → LineType → Bool
same_type context context = true
same_type addition addition = true
same_type deletion deletion = true
same_type _ _ = false

pub record DiffLine : Type 0 where
  pub kind : LineType
  pub content : Text
  pub old_lineno : Option ℕ
  pub new_lineno : Option ℕ
  pub moved : Option MovedLineKind

pub data SourceSpec : Type 0 where
  absent : SourceSpec
  file : Text → SourceSpec
  git_blob : Text → Text → Text → SourceSpec
  git_index : Text → Text → SourceSpec
  remote_blob : Text → Text → Text → SourceSpec

pub record Hunk : Type 0 where
  pub old_start : ℕ
  pub new_start : ℕ
  pub header : Text
  pub lines : List DiffLine

pub data FileChangeKind : Type 0 where
  modified added deleted renamed copied : FileChangeKind

pub record LineRange : Type 0 where
  pub start : ℕ
  pub end : ℕ

pub data NoteConfidence : Type 0 where
  low medium high : NoteConfidence

pub data NoteSource : Type 0 where
  ai agent user : NoteSource
  named : Text → NoteSource

pub record ReviewNote : Type 0 where
  pub id : Option Text
  pub old_range : Option LineRange
  pub new_range : Option LineRange
  pub summary : Text
  pub rationale : Option Text
  pub markup : Option Text
  pub tags : List Text
  pub confidence : Option NoteConfidence
  pub source : NoteSource
  pub title : Option Text
  pub author : Option Text
  pub created_at : Option Text
  pub updated_at : Option Text
  pub editable : Bool

pub record AgentFileContext : Type 0 where
  pub path : Text
  pub summary : Option Text
  pub annotations : List ReviewNote

pub record DiffFile : Type 0 where
  pub id : Text
  pub path : Text
  pub previous_path : Option Text
  pub summary : Option Text
  pub agent : Option AgentFileContext
  pub patch : Text
  pub hunks : List Hunk
  pub change_kind : FileChangeKind
  pub is_binary : Bool
  pub is_untracked : Bool
  pub is_too_large : Bool
  pub stats_truncated : Bool
  pub language : Option Text
  pub stats : FileStats
  pub old_source : SourceSpec
  pub new_source : SourceSpec
