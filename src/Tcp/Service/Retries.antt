-- ===== src/Tcp/Service/Retries.antt =====
-- What the service thread does to a connection that hears no more of the other side.
use ex_os.Base.{
  ℕ, zero, suc, ◌+◌, ◌<◌, ◌≤◌, ◌≡◌, ◌∙◌, refl, ap, length, List, [], ◌∷◌, inl, inr, Bool-cases,
  arith, leb, if◌then◌else◌,
}
use ex_os.Tcp.{TcpState, closed, syn_sent, last_ack, fin_wait_1, fin_wait_2, closing, Entry}
use ex_os.Tcp.Service.{retry, handle_in, handle}

-- The rounds of the service thread, at their times.
unfoldable pub rounds : ℕ → Entry → List ℕ → Entry
rounds max io [] = io
rounds max io (now ∷ nows) = rounds max (handle max now io).0 nows

-- How many rounds a state waits for an answer
abbrev pub patience : TcpState → ℕ
patience syn_sent = 3
patience last_ack = 3
patience fin_wait_1 = 1
patience fin_wait_2 = 1
patience _ = 0

handle_waits :
    (max now : ℕ) (io : Entry)
    → io.service_retry < patience io.state
    → ((handle max now io).0.state ≡ io.state)
      × ((handle max now io).0.service_retry ≡ io.service_retry + 1)
unfolding handle handle_in
handle_waits max now io h = grind (arith)

handle_gives_up :
    (max now : ℕ) (io : Entry)
    → 0 < patience io.state
    → patience io.state ≤ io.service_retry
    → (handle max now io).0.state ≡ closed
unfolding handle handle_in
handle_gives_up max now io some h = grind (arith)

-- `_handle` does not change the state CLOSING.
handle_closing :
    (max now : ℕ) (io : Entry) → io.state ≡ closing → (handle max now io).0.state ≡ closing
unfolding handle handle_in
handle_closing max now io e = grind (arith)

rounds_from :
    (max : ℕ) (io : Entry) (k : ℕ) (nows : List ℕ)
    → 0 < patience io.state
    → io.service_retry + k ≡ patience io.state
    → (length nows ≤ k → (rounds max io nows).state ≡ io.state)
      × (length nows ≡ suc k → (rounds max io nows).state ≡ closed)
unfolding rounds
rounds_from max io k [] some is = ((λ le. refl), (λ e. absurd (omega arith)))
rounds_from max io zero (now ∷ []) some is =
    ((λ le. absurd (omega arith)), (λ e. handle_gives_up max now io some (omega arith)))
rounds_from max io zero (now ∷ later ∷ nows) some is =
    ((λ le. absurd (omega arith)), (λ e. absurd (omega arith)))
rounds_from max io (suc k) (now ∷ nows) some is =
    let (state, retry) = handle_waits max now io (omega arith) in
    let same : patience (handle max now io).0.state ≡ patience io.state = ap patience state in
    let (waits, closes) =
      rounds_from max (handle max now io).0 k nows (omega (arith, same))
        (omega (arith, same, retry)) in
    ((λ le. waits (omega arith) ∙ state), (λ e. closes (omega arith)))

-- A connection that waits for its SYN or its FIN to be answered, and hears nothing, stays as it is for
-- as many rounds of the service thread as it has patience for, and the next round closes it.
pub rounds_closed :
    (max : ℕ) (io : Entry) (nows : List ℕ)
    → 0 < patience io.state
    → io.service_retry ≡ 0
    → length nows ≤ suc (patience io.state)
    → (rounds max io nows).state
      ≡ (if leb (length nows) (patience io.state) then io.state else closed)
rounds_closed max io nows some is few =
    let (waits, closes) = rounds_from max io (patience io.state) nows some (omega arith) in
    elim (Bool-cases (leb (length nows) (patience io.state))) [
      | inl within ↦ rw within (waits (ground arith))
      | inr last ↦ rw last (closes (ground arith))
    ]

-- A connection in CLOSING that hears nothing more stays there however often the service thread handles
-- it.
pub rounds_closing :
    (max : ℕ) (io : Entry) (nows : List ℕ)
    → io.state ≡ closing
    → (rounds max io nows).state ≡ closing
unfolding rounds
rounds_closing max io [] e = e
rounds_closing max io (now ∷ nows) e =
    rounds_closing max (handle max now io).0 nows (handle_closing max now io e)
