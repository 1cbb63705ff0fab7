-- ===== src/DraftStore.antt =====
-- draft-store.ts: the draft that each user is editing. The clock's reading is an argument of `put`.
pub mod Runs
mod Tests
use miharbor.Base.{ℕ, Option, none, some, List, [], ◌∷◌, length}
use miharbor.Base.Text.{Text}
use miharbor.Base.Dict.{lookup, insert, erase}

pub record DraftEntry : Type 0 where
  pub text : Text
  pub updated : Text
  pub by : Text

abbrev pub DraftStore : Type 0
DraftStore = List (Text × DraftEntry)

abbrev pub create_draft_store : DraftStore
create_draft_store = []

abbrev pub draft_entry : Text → Text → Text → DraftEntry
draft_entry now user draft = record { text = draft; updated = now; by = user }

-- `get`
unfoldable pub draft_of : Text → DraftStore → Option DraftEntry
draft_of user drafts = lookup user drafts

unfoldable pub put : Text → Text → Text → DraftStore → DraftEntry × DraftStore
put now user draft drafts =
    (draft_entry now user draft, insert user (draft_entry now user draft) drafts)

unfoldable pub clear : Text → DraftStore → DraftStore
clear user drafts = erase user drafts

unfoldable pub size : DraftStore → ℕ
size drafts = length drafts

-- The calls that change the store: `put now user text` and `clear user`.
pub data Call : Type 0 where
  putting : Text → Text → Text → Call
  clearing : Text → Call

unfoldable pub step : Call → DraftStore → DraftStore
unfolding put clear
step (putting now user draft) drafts = (put now user draft drafts).1
step (clearing user) drafts = clear user drafts

unfoldable pub run : List Call → DraftStore → DraftStore
unfolding step
run [] drafts = drafts
run (c ∷ cs) drafts = run cs (step c drafts)
