-- ===== src/Catalog/Tests.antt =====
-- The scanner at a file of two entries.
use miharbor.Base.{◌≡◌, ◌≢◌, none, some, List, [], ◌∷◌, map, arith}
use miharbor.Catalog.{pb_scan}
use miharbor.Catalog.Ends.{pb_scan-Ends}
use miharbor.Catalog.Entries.{Entry, last, file_of, AllEntries, pb_scan-entries}

abbrev two_entries : List Entry
two_entries =
    record { name = b'r' ∷ b'u' ∷ []; name_size = 2 ∷ []; others = 18 ∷ 1 ∷ 0 ∷ []; size = 7 ∷ [] }
    ∷ record { name = b'd' ∷ b'e' ∷ []; name_size = 2 ∷ []; others = []; size = 4 ∷ [] }
    ∷ []

two_entries-AllEntries : AllEntries two_entries
two_entries-AllEntries = (
  record {
    name_sized = last 2 (omega arith);
    name_short = omega arith;
    sized = last 7 (omega arith);
    short = omega arith;
  },
  (
    record {
      name_sized = last 2 (omega arith);
      name_short = omega arith;
      sized = last 4 (omega arith);
      short = omega arith;
    },
    tt,
  ),
)

pb_scan-entries_example :
    pb_scan (λ bs. bs) (file_of two_entries) ≡ some (map (λ e. e.name) two_entries)
pb_scan-entries_example = pb_scan-entries (λ bs. bs) two_entries two_entries-AllEntries

-- A length that runs past the end.
pb_scan-Ends_example : pb_scan (λ bs. bs) (10 ∷ 200 ∷ 1 ∷ 8 ∷ []) ≢ none
pb_scan-Ends_example = pb_scan-Ends (λ bs. bs) (10 ∷ 200 ∷ 1 ∷ 8 ∷ [])
