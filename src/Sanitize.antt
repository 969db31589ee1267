-- ===== src/Sanitize.antt =====
-- src/input/pager.rs: the text of a patch, a note or a source line is shown in a terminal only
-- after its control sequences are removed by `sanitize_terminal_text`, and `looks_like_patch`
-- decides on that text whether standard input is a patch. Reading standard input (`load`) is not
-- modelled.
pub mod Safe
mod Tests
use ramo.Prelude.Str.{normalize_newlines, lines, strip_prefix, starts_with}
use ramo.Prelude.Text.{Text, codes}
use ramo.Prelude.{
  ℕ, Bool, leb, ◌||◌, if◌then◌else◌, [], List, ◌∷◌, ◌&&◌, ◌==◌, ◌++◌, false, not, all, true,
}

-- `char::is_control`: the Unicode category Cc.
unfoldable pub is_control : ℕ → Bool
is_control c = leb c 0x1F || (leb 0x7F c && leb c 0x9F)

unfoldable pub is_ascii_digit : ℕ → Bool
is_ascii_digit c = leb b'0' c && leb c b'9'

pub data State : Type 0 where
  ground escape csi osc osc_escape : State

-- The state of the scan: where it stands, and the parameters of a sequence that has begun.
pub record Scan : Type 0 where
  pub state : State
  pub params : Text

abbrev pub at_state : State → Text → Scan
at_state state params = record { state = state; params = params }

abbrev pub esc : ℕ
esc = 0x1B

unfoldable pub is_sgr_param : ℕ → Bool
unfolding is_ascii_digit
is_sgr_param value = is_ascii_digit value || value == b';'

-- One character of the loop: the next state of the scan and what is pushed to the output.
unfoldable pub step : Bool → State → Text → ℕ → Scan × Text
unfolding is_control is_sgr_param
step preserve_sgr ground params character =
    if character == esc
    then (at_state escape params, [])
    else if character == 10 || character == 9 || not (is_control character)
    then (at_state ground params, character ∷ [])
    else (at_state ground params, [])
step preserve_sgr escape params character =
    if character == b'['
    then (at_state csi [], [])
    else if character == b']'
    then (at_state osc params, [])
    else (at_state ground params, [])
step preserve_sgr csi params character =
    if leb b'@' character && leb character b'~'
    then (
      at_state ground params,
      if preserve_sgr && character == b'm' && all is_sgr_param params
          then esc ∷ b'[' ∷ (params ++ b'm' ∷ [])
          else [],
    )
    else (at_state csi (params ++ character ∷ []), [])
step preserve_sgr osc params character =
    if character == 7
    then (at_state ground params, [])
    else if character == esc
    then (at_state osc_escape params, [])
    else (at_state osc params, [])
step preserve_sgr osc_escape params character =
    if character == b'\\'
    then (at_state ground params, [])
    else if character == esc
    then (at_state osc_escape params, [])
    else (at_state osc params, [])

unfoldable pub scan_from : Bool → Scan → Text → Text
unfolding step
scan_from preserve_sgr scan [] = []
scan_from preserve_sgr scan (c ∷ s) =
    let (next, pushed) = step preserve_sgr scan.state scan.params c in
    pushed ++ scan_from preserve_sgr next s

unfoldable pub sanitize_terminal_text : Text → Bool → Text
unfolding scan_from normalize_newlines
sanitize_terminal_text input preserve_sgr =
    scan_from preserve_sgr (at_state ground []) (normalize_newlines input)

patch_lines : Bool → Bool → List Text → Bool
patch_lines old_header new_header [] = old_header && new_header
patch_lines old_header new_header (line ∷ rest) =
    let found =
      patch_lines (old_header || starts_with (codes "--- ") line)
        (new_header || starts_with (codes "+++ ") line) rest in
    if starts_with (codes "diff --git ") line || starts_with (codes "@@ ") line then true else found

pub looks_like_patch : Text → Bool
unfolding sanitize_terminal_text patch_lines lines strip_prefix
looks_like_patch input = patch_lines false false (lines (sanitize_terminal_text input false))
