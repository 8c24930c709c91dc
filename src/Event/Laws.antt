-- ===== src/Event/Laws.antt =====
-- What setting and resetting an event do to the threads that wait for it, and to those that come.
use ex_os.Base.{
  ℕ, ◌≡◌, refl, Bool, true, false, ◌||◌, not, some, List, [], ◌∷◌, arith, ◌==◌, length,
}
use ex_os.Thread.{Kernel}
use ex_os.Thread.Ready.{IsScheduled}
use ex_os.Thread.Resume.{Distinct, AllWaiting, Woken, resume_all-Woken}
use ex_os.Event.{Event, set, reset}

abbrev pub no_one : List ℕ → Bool
no_one [] = true
no_one (x ∷ xs) = false

no_one-length : (xs : List ℕ) → (length xs == 0) ≡ no_one xs
no_one-length [] = refl
no_one-length (x ∷ xs) = ground arith

module _ (own : ℕ → ℕ) (q : ℕ) (k : Kernel) (e : Event) (xs : List ℕ) (here : k.queues q ≡ xs)
    (s : IsScheduled k) (d : Distinct xs) (a : AllWaiting own q k xs) where
  -- `exos_event_set` wakes every thread that waits for the event. Afterwards the event is set, but
  -- for an auto-reset event that a thread waited for.
  pub set-Woken :
      (k' : Kernel) × (set q k e ≡ some (record e { signalled = not e.autoreset || no_one xs }, k'))
      × Woken own q k k' xs
  unfolding set
  set-Woken =
      let (k', r, w) = resume_all-Woken own q k xs here s d a in
      (k', rw (r, set) (rw (no_one-length xs) (ground arith)), w)

  -- `exos_event_reset`, too, wakes every thread that waits for the event, though the event is not
  -- set afterwards.
  pub reset-Woken :
      (k' : Kernel) × (reset q k e ≡ some (record e { signalled = false }, k'))
      × Woken own q k k' xs
  unfolding reset
  reset-Woken =
      let (k', r, w) = resume_all-Woken own q k xs here s d a in (k', rw (r, reset) refl, w)
