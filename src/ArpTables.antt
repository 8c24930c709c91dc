-- ===== src/ArpTables.antt =====
-- exos/kernel/driver/net/arp_tables.c: the table from ip addresses to hardware addresses.
-- The entries are the elements of `_table`; an address or an event is a number. `_time` and the ages
-- have 32 bits. The entry that is returned is its index; a missing one is `none`.
mod Laws
mod Tests
use ex_os.Base.{
  ℕ, zero, suc, ◌+◌, ◌-◌, ◌%◌, ◌^◌, Bool, true, false, ◌||◌, ◌&&◌, Option, none, some, List, [],
  ◌∷◌, ltb, ◌==◌, if◌then◌else◌, set, get_or, map,
}

pub data EntryState : Type 0 where
  entry_invalid : EntryState
  entry_pending : EntryState
  entry_valid : EntryState

abbrev pub is_invalid : EntryState → Bool
is_invalid entry_invalid = true
is_invalid entry_pending = false
is_invalid entry_valid = false

abbrev pub is_pending : EntryState → Bool
is_pending entry_invalid = false
is_pending entry_pending = true
is_pending entry_valid = false

abbrev pub is_valid : EntryState → Bool
is_valid entry_invalid = false
is_valid entry_pending = false
is_valid entry_valid = true

-- `ARP_ENTRY`
pub record Entry : Type 0 where
  pub mac : ℕ
  pub state : EntryState
  pub time : ℕ
  pub ip : ℕ
  pub event : Option ℕ

-- `net_arp_tables_initialize`
pub initialize : List Entry → List Entry
initialize [] = []
initialize (e ∷ es) = record e { state = entry_invalid; ip = 0 } ∷ initialize es

-- Whether the loop of `net_arp_tables_set_entry` stops at the entry.
abbrev pub is_match : ℕ → Entry → Bool
is_match ip e = is_invalid e.state || (ip == e.ip)

abbrev pub age : ℕ → Entry → ℕ
age time e = (time + 2 ^ 32 - e.time) % 2 ^ 32

-- The loop of `net_arp_tables_set_entry` from the entry `i` on, with `target` and `best`.
unfoldable pub pick : ℕ → ℕ → List Entry → ℕ → Option ℕ → ℕ → Option ℕ
pick ip time [] i target best = target
pick ip time (e ∷ es) i target best =
    let better = ltb (age time e) best in
    let rest =
      pick ip time es (i + 1) (if better then some i else target)
        (if better then age time e else best) in
    if is_match ip e then some i else rest

-- The event that `net_arp_tables_set_entry` sets, of the entry before it is written.
abbrev pub woken : Entry → EntryState → Option ℕ
woken e state = if is_pending e.state && is_valid state then e.event else none

abbrev pub blank : Entry
blank = record { mac = 0; state = entry_invalid; time = 0; ip = 0; event = none }

-- `net_arp_tables_set_entry`: the entry, the event that is set, the table and `_time`.
pub set_entry :
    ℕ → ℕ → EntryState → Option ℕ → List Entry → ℕ → Option ℕ × Option ℕ × List Entry × ℕ
set_entry ip mac state event table time =
    let now = (time + 1) % 2 ^ 32 in
    elim (pick ip now table 0 none (2 ^ 32 - 1)) [
      | none ↦ (none, none, table, now)
      | some i ↦ (
        some i,
        woken (get_or table i blank) state,
        set table i (record { mac = mac; state = state; time = now; ip = ip; event = event }),
        now,
      )
    ]

-- `net_arp_tables_get_hw_addr`: the address, if it is found.
unfoldable pub get_hw_addr : ℕ → List Entry → Option ℕ
get_hw_addr ip [] = none
get_hw_addr ip (e ∷ es) = if is_valid e.state && (e.ip == ip) then some e.mac else get_hw_addr ip es
