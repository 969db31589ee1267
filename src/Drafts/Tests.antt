-- ===== src/Drafts/Tests.antt =====
-- Runs of crates/ramo-core/src/drafts.rs.
use ramo.Prelude.Text.{Text, codes}
use ramo.Drafts.Reanchor.{Sound, reanchor-Sound}
use ramo.Drafts.{
  create_draft, reanchor, DraftAnchor, DraftComment, right, refused, moved, needs_attention,
  blank_body, cross_hunk, created,
}
use ramo.Prelude.{ℕ, List, ◌∷◌, [], ◌≡◌, ◌++◌, arith, refl}

abbrev anchor_at : ℕ → DraftAnchor
anchor_at start_line = record {
  repository = codes "r";
  number = 1;
  captured_revision = codes "c";
  path = codes "f";
  side = right;
  start_line = start_line;
  end_line = start_line;
  context_before = codes "a" ∷ [];
  selected_text = codes "b" ∷ [];
  context_after = codes "c" ∷ [];
}

abbrev draft_at : ℕ → DraftComment
draft_at start_line = record { id = codes "1"; anchor = anchor_at start_line; body = codes "why" }

abbrev longer : List Text
longer = codes "x" ∷ codes "a" ∷ codes "b" ∷ codes "c" ∷ []

create_test :
    (create_draft (codes "1") (anchor_at 2) (codes " \n") right 0 0 ≡ refused blank_body)
    × (create_draft (codes "1") (anchor_at 2) (codes "why") right 0 1 ≡ refused cross_hunk)
    × (create_draft (codes "1") (anchor_at 2) (codes "why") right 0 0 ≡ created (draft_at 2))
unfolding create_draft
create_test = (refl, refl, refl)

moved_test : reanchor (draft_at 2) (codes "f") right longer ≡ moved (draft_at 3) 2 3
unfolding reanchor
moved_test = refl

twice_test :
    reanchor (draft_at 1) (codes "f") right (longer ++ longer)
    ≡ needs_attention (draft_at 1) (codes "The selected text appears more than once")
unfolding reanchor
twice_test = refl

reanchor-Sound_example : Sound (draft_at 2) longer (reanchor (draft_at 2) (codes "f") right longer)
reanchor-Sound_example = reanchor-Sound (draft_at 2) (codes "f") right longer (omega arith)
