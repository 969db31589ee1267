-- ===== src/Lib.antt =====
-- Ramo shows a diff in a terminal for review. A diff comes from a version control system, from a
-- pull request or from standard input; it is parsed into files, hunks and lines; the unchanged
-- lines between hunks are folded into gaps, which can be unfolded; and notes are written in text
-- inputs. This library models those parts as functions and states what they promise.
--
-- Prelude          Numbers, lists, and the standard library of Rust as the source uses it: texts
--                  as lists of code points with byte offsets (Prelude.Text), string functions
--                  (Prelude.Str), UTF-8 (Prelude.Utf8), fixed-width arithmetic (Prelude.Machine).
-- TextInput        src/ui/text_input.rs: a buffer and one function for each editing method.
--                  `press` of TextInput.Caret sends a key to its method, and TextInput.Refine
--                  compares the methods with a caret between two stacks.
-- Sanitize         src/input/pager.rs: `sanitize_terminal_text` as a scan with a state, one `step`
--                  for each character, and `looks_like_patch`.
-- Diff             crates/ramo-core/src/diff/model.rs and agent.rs: the data of a diff.
-- Diff.Header      crates/ramo-core/src/diff/parser.rs: `parse_hunk_header`,
-- Diff.Hunks       `parse_hunk`,
-- Diff.Paths       the paths of a patch and their quoting,
-- Diff.Files       `parse_file` and `parse_unified_diff`, with `stable_file_id` of changeset.rs.
-- Context          src/review/context.rs: `derive_collapsed_gaps` and `expand_gap_lines`; it takes
--                  the files of Diff and shows lines by Sanitize.
-- ReviewMap        crates/ramo-core/src/review_map/model.rs and the request of enrichment.rs: the
--                  files of a pull request in groups.
-- ReviewMap.Classify  classify.rs and codeowners.rs of that folder: the kind and the owner of a path.
-- ReviewMap.Planner  planner.rs: `build_review_map`; ReviewMap.Exact its check that the groups are a
--                  partition of the files.
-- ReviewMap.Enrichment  enrichment.rs: the checks of a proposal and, in Enrichment.Merge, its merge.
-- ReviewMap.Controller  src/review_map/state.rs: the rows that are shown, and in its module
--                  Actions a function for each method; Controller.Sessions runs sequences of them.
-- Budget           crates/ramo-server/src/analysis/budget.rs: `budget_batches` and what it calls.
-- Rows             src/review/row.rs and emphasis.rs: the rows of a review. Rows.Emphasis marks the
--                  words that differ, Rows.Build makes the rows of the lines of a hunk, and
--                  Rows.Plan those of a file, with the gaps of Context.
-- Notes            src/review/row.rs: the text of notes, wrapped, and the place of the caret;
--                  Notes.Target, src/notes/target.rs, the hunk and the box of a note.
-- Geometry         src/review/geometry.rs: where the rows of Rows.Plan stand (Geometry.Build), and
--                  which of them a window shows; Geometry.Anchor, src/review/anchor.rs, keeps
--                  the place that is shown over a reload.
-- Watch            src/watch/coordinator.rs: when a watched review is loaded again; Watch.Served runs
--                  sequences of its methods.
-- Drafts           crates/ramo-core/src/drafts.rs: comments that are not sent yet, and their place
--                  after a change.
-- Progress         src/review/progress.rs: which changed lines were seen; Progress.Sessions runs
--                  sequences of its methods.
--
-- A panic of the source is `none`. `usize` is 64 bits wide and line numbers are `u32`; saturating
-- operations are written as minima, and a plain sum of the source wraps, as in the release
-- profile. Fuel is the length of the text that a loop walks, and every round takes a character at
-- least; the binary search of Budget has the distance of its bounds. `char::is_alphanumeric` and
-- `str::to_lowercase` belong to Unicode tables and are parameters; `is_whitespace` and `is_control`
-- are written out. The word diff of the crate `similar` is a parameter, of which it is only asked
-- that the changes of a side make up its text. So are the patterns of the crate `globset`, and the
-- widths of the crate `unicode_width`. The order
-- of hash sets is not fixed; where it shows, the model takes the order of the files.
--
-- Not modelled: input and output, drawing, processes, services and threads; the loader of context
-- sources, with its cache; the identities, labels and cards of notes, and the state of a review; the
-- quality of an analysis; the server but for its budget.
pub mod Prelude
pub mod TextInput
pub mod Sanitize
pub mod Diff
pub mod Context
pub mod ReviewMap
pub mod Budget
pub mod Rows
pub mod Progress
pub mod Watch
pub mod Drafts
pub mod Notes
pub mod Geometry
