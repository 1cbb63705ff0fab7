-- ===== src/DraftStore/Runs.antt =====
-- What a user finds in the draft store after any calls of all users.
use miharbor.Base.{◌≡◌, refl, ap, ◌∙◌, Option, none, some, List, [], ◌∷◌, if◌then◌else◌}
use miharbor.Base.Text.{Text, text_eq}
use miharbor.Base.Dict.{lookup-insert, lookup-erase}
use miharbor.DraftStore.{
  DraftEntry, DraftStore, draft_entry, draft_of, put, clear, Call, putting, clearing, step, run,
}

-- The slot of one user.
abbrev pub slot_after : Text → Call → Option DraftEntry → Option DraftEntry
slot_after user (putting now u draft) o =
    if text_eq u user then some (draft_entry now u draft) else o
slot_after user (clearing u) o = if text_eq u user then none else o

abbrev pub slot : Text → List Call → Option DraftEntry → Option DraftEntry
slot user [] o = o
slot user (c ∷ cs) o = slot user cs (slot_after user c o)

draft_of-step :
    (user : Text) (c : Call) (drafts : DraftStore)
    → draft_of user (step c drafts) ≡ slot_after user c (draft_of user drafts)
unfolding draft_of step put clear
draft_of-step user (putting now u draft) drafts =
    lookup-insert u user (draft_entry now u draft) drafts
draft_of-step user (clearing u) drafts = lookup-erase u user drafts

-- After any calls a user finds what the calls for that user alone have left in one slot: the text
-- put last, unless it was cleared since.
pub draft_of-run :
    (user : Text) (cs : List Call) (drafts : DraftStore)
    → draft_of user (run cs drafts) ≡ slot user cs (draft_of user drafts)
unfolding run
draft_of-run user [] drafts = refl
draft_of-run user (c ∷ cs) drafts =
    draft_of-run user cs (step c drafts) ∙ ap (slot user cs) (draft_of-step user c drafts)
