-- ===== src/DraftStore/Tests.antt =====
-- An instance of the theorem on runs.
use miharbor.Base.{◌≡◌, List, [], ◌∷◌}
use miharbor.Base.Text.{text}
use miharbor.DraftStore.{create_draft_store, draft_of, Call, putting, clearing, run}
use miharbor.DraftStore.Runs.{slot, draft_of-run}

abbrev two_users : List Call
two_users =
    putting (text "t1") (text "ann") (text "a: 1")
    ∷ putting (text "t2") (text "bob") (text "b: 1")
    ∷ clearing (text "bob")
    ∷ []

draft_of-run_example :
    draft_of (text "ann") (run two_users create_draft_store)
    ≡ slot (text "ann") two_users (draft_of (text "ann") create_draft_store)
draft_of-run_example = draft_of-run (text "ann") two_users create_draft_store
