-- ===== src/ArpTables/Tests.antt =====
-- Runs of the table with two entries, and its theorems there.
use ex_os.Base.{ℕ, ◌<◌, ◌≤◌, ◌≡◌, ◌≢◌, refl, none, some, [], ◌∷◌, arith, get_or, length}
use ex_os.LinkedList.Links.{All}
use ex_os.ArpTables.{Entry, entry_valid, entry_pending, age, blank, pick, set_entry, get_hw_addr}
use ex_os.ArpTables.Laws.{get_hw_addr-set_entry, set_entry_evicts_newest}

abbrev older : Entry
older = record { mac = 70; state = entry_valid; time = 4; ip = 7; event = none }

abbrev newer : Entry
newer = record { mac = 80; state = entry_pending; time = 6; ip = 8; event = some 3 }

-- The answer to a pending request sets its event and becomes known.
answer : set_entry 8 81 entry_valid none (older ∷ newer ∷ []) 6 ≡ (
  some 1,
  some 3,
  older ∷ record newer { mac = 81; state = entry_valid; time = 7; event = none } ∷ [],
  7,
)
unfolding set_entry pick
answer = refl

get_hw_addr-set_entry_example :
    let (place, _, table, _) = set_entry 8 81 entry_valid none (older ∷ newer ∷ []) 6 in
    (place ≢ none) × (get_hw_addr 8 table ≡ some 81)
get_hw_addr-set_entry_example = get_hw_addr-set_entry 8 81 6 none older (newer ∷ []) (omega arith)

set_entry_evicts_newest_example :
    (j : ℕ) × ((set_entry 9 90 entry_valid none (older ∷ newer ∷ []) 6).0 ≡ some j)
    × (j < length (older ∷ newer ∷ []))
    × All (λ x. age 7 (get_or (older ∷ newer ∷ []) j blank) ≤ age 7 x) (older ∷ newer ∷ [])
set_entry_evicts_newest_example =
    set_entry_evicts_newest 9 90 6 entry_valid none older (newer ∷ []) (omega arith)
      (refl, (refl, tt))
