-- ===== src/ArpTables/Laws.antt =====
-- What is found in the table after an entry is set, and which entry is given up for it.
use ex_os.Base.{
  ℕ, zero, suc, ◌+◌, ◌-◌, ◌%◌, ◌^◌, ◌<◌, ◌≤◌, ◌≡◌, ◌≢◌, ◌⊎◌, ◌∙◌, refl, inl, inr, ap, true, false,
  Option, none, some, List, [], ◌∷◌, arith, ltb, Bool-cases, set, get_or, length,
}
use ex_os.LinkedList.Links.{All}
use ex_os.ArpTables.{
  EntryState, entry_valid, Entry, is_match, is_valid, age, pick, blank, set_entry, get_hw_addr,
}

module _ (ip time : ℕ) where
  -- The list has an entry `j`, and none before it matches.
  abbrev pub IsOpen : ℕ → List Entry → Type 0
  IsOpen j [] = j < 0
  IsOpen zero (e ∷ es) = Unit
  IsOpen (suc j) (e ∷ es) = (is_match ip e ≡ false) × IsOpen j es

  abbrev pub NoMatch : List Entry → Type 0
  NoMatch = All (λ e. is_match ip e ≡ false)

  pick-IsOpen :
      (es : List Entry) (i : ℕ) (target : Option ℕ) (best : ℕ)
      → ((j : ℕ) × (pick ip time es i target best ≡ some (i + j)) × IsOpen j es)
        ⊎ (pick ip time es i target best ≡ target)
  unfolding pick
  pick-IsOpen [] i target best = inr refl
  pick-IsOpen (e ∷ es) i target best = elim (Bool-cases (is_match ip e)) [
    | inl m ↦ inl (0, rw m (ap some (omega arith)), tt)
    | inr m ↦ elim (Bool-cases (ltb (age time e) best)) [
      | inl b ↦ elim (pick-IsOpen es (i + 1) (some i) (age time e)) [
        | inl (j, r, o) ↦ inl (suc j, rw (m, b) (r ∙ ap some (omega arith)), (m, o))
        | inr r ↦ inl (0, rw (m, b) (r ∙ ap some (omega arith)), tt)
      ]
      | inr b ↦ elim (pick-IsOpen es (i + 1) target best) [
        | inl (j, r, o) ↦ inl (suc j, rw (m, b) (r ∙ ap some (omega arith)), (m, o))
        | inr r ↦ inr (rw (m, b) r)
      ]
    ]
  ]

  -- If the first entry is younger than the oldest possible age, the loop finds a place.
  pick_finds :
      (e : Entry) (es : List Entry)
      → age time e < 2 ^ 32 - 1
      → (j : ℕ) × (pick ip time (e ∷ es) 0 none (2 ^ 32 - 1) ≡ some j) × IsOpen j (e ∷ es)
  unfolding pick
  pick_finds e es y = elim (Bool-cases (is_match ip e)) [
    | inl m ↦ (0, rw m refl, tt)
    | inr m ↦
        let b : ltb (age time e) (2 ^ 32 - 1) ≡ true = ground arith in
        elim (pick-IsOpen es 1 (some 0) (age time e)) [
          | inl (j, r, o) ↦ (suc j, rw (m, b) (r ∙ ap some (omega arith)), (m, o))
          | inr r ↦ (0, rw (m, b) r, tt)
        ]
  ]

  get-set :
      (es : List Entry) (j : ℕ) (v : Entry)
      → IsOpen j es
      → is_valid v.state ≡ true
      → v.ip ≡ ip
      → get_hw_addr ip (set es j v) ≡ some v.mac
  unfolding get_hw_addr
  get-set [] j v o a b = absurd (omega arith)
  get-set (e ∷ es) zero v o a b = ground arith
  get-set (e ∷ es) (suc j) v o a b = let here = o.0 in ground (arith, here, get-set es j v o.1 a b)

-- The address that `net_arp_tables_set_entry` enters as valid is found by
-- `net_arp_tables_get_hw_addr`, if the first entry is not of the age of 2 ^ 32 - 1 ticks.
pub get_hw_addr-set_entry :
    (ip mac time : ℕ) (event : Option ℕ) (e : Entry) (es : List Entry)
    → age ((time + 1) % 2 ^ 32) e < 2 ^ 32 - 1
    → let (place, _, table, _) = set_entry ip mac entry_valid event (e ∷ es) time in
      (place ≢ none) × (get_hw_addr ip table ≡ some mac)
unfolding set_entry
get_hw_addr-set_entry ip mac time event e es y =
    let now = (time + 1) % 2 ^ 32 in
    let (j, r, o) = pick_finds ip now e es y in
    let v : Entry = record { mac = mac; state = entry_valid; time = now; ip = ip; event = event } in
    (
      rw (r, set_entry) (λ n. ground arith),
      rw (r, set_entry) (get-set ip now (e ∷ es) j v o refl refl),
    )

module _ (ip time : ℕ) where
  abbrev pub age_at : List Entry → ℕ → ℕ
  age_at es j = age time (get_or es j blank)

  pick_youngest :
      (es : List Entry) (i : ℕ) (target : Option ℕ) (best : ℕ)
      → NoMatch ip time es
      → ((j : ℕ) × (pick ip time es i target best ≡ some (i + j))
          × (j < length es)
          × (age_at es j < best)
          × All (λ x. age_at es j ≤ age time x) es)
        ⊎ ((pick ip time es i target best ≡ target) × All (λ x. best ≤ age time x) es)
  unfolding pick
  pick_youngest [] i target best n = inr (refl, tt)
  pick_youngest (e ∷ es) i target best n = elim (Bool-cases (ltb (age time e) best)) [
    | inl b ↦ elim (pick_youngest es (i + 1) (some i) (age time e) n.1) [
      | inl (j, r, lt, y, all) ↦ inl (
        suc j,
        rw (n.0, b) (r ∙ ap some (omega arith)),
        omega arith,
        ground (arith, b, y),
        (omega (arith, y), all),
      )
      | inr (r, all) ↦ inl (
        0,
        rw (n.0, b) (r ∙ ap some (omega arith)),
        omega arith,
        ground (arith, b),
        (omega arith, all),
      )
    ]
    | inr b ↦ elim (pick_youngest es (i + 1) target best n.1) [
      | inl (j, r, lt, y, all) ↦ inl (
        suc j,
        rw (n.0, b) (r ∙ ap some (omega arith)),
        omega arith,
        y,
        (ground (arith, b, y), all),
      )
      | inr (r, all) ↦ inr (rw (n.0, b) r, (ground (arith, b), all))
    ]
  ]

-- In a full table without the address, whose first entry is not of the age of 2 ^ 32 - 1 ticks,
-- `net_arp_tables_set_entry` overwrites an entry that no other one is younger than.
pub set_entry_evicts_newest :
    (ip mac time : ℕ) (state : EntryState) (event : Option ℕ) (e : Entry) (es : List Entry)
    → age ((time + 1) % 2 ^ 32) e < 2 ^ 32 - 1
    → NoMatch ip time (e ∷ es)
    → let now = (time + 1) % 2 ^ 32 in
      (j : ℕ) × ((set_entry ip mac state event (e ∷ es) time).0 ≡ some j)
      × (j < length (e ∷ es))
      × All (λ x. age now (get_or (e ∷ es) j blank) ≤ age now x) (e ∷ es)
unfolding set_entry
set_entry_evicts_newest ip mac time state event e es y n =
    let now = (time + 1) % 2 ^ 32 in
    elim (pick_youngest ip now (e ∷ es) 0 none (2 ^ 32 - 1) n) [
      | inl (j, r, lt, _, all) ↦ (j, rw (r, set_entry) (ap some (omega arith)), lt, all)
      | inr (_, all) ↦ absurd (omega (arith, all.0, y))
    ]
