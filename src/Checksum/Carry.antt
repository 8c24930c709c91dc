-- ===== src/Checksum/Carry.antt =====
-- When a header with its checksum filled in passes the check.
use ex_os.Base.{ℕ, ◌+◌, ◌/◌, ◌%◌, ◌^◌, ◌<◌, ◌≡◌, ◌↔◌, List, [], ◌∷◌, ◌++◌, arith}
use ex_os.Checksum.{add_words, fold, checksum_words}

unfoldable pub total : List ℕ → ℕ
total [] = 0
total (w ∷ ws) = w + total ws

pub total-append : (xs ys : List ℕ) → total (xs ++ ys) ≡ total xs + total ys
unfolding total
total-append [] ys = omega arith
total-append (x ∷ xs) ys = omega (arith, total-append xs ys)

pub add_words-total :
    (ws : List ℕ) (sum : ℕ) → sum + total ws < 2 ^ 32 → add_words ws sum ≡ sum + total ws
unfolding add_words total
add_words-total [] sum room = omega arith
add_words-total (w ∷ ws) sum room =
    let kept : (sum + w) % 2 ^ 32 ≡ sum + w = omega arith in
    rw kept (omega (arith, add_words-total ws (sum + w) (omega arith)))

-- The sum of the words about one word.
add_words_about :
    (pre : List ℕ) (w : ℕ) (post : List ℕ) (s : ℕ)
    → s ≡ total pre + total post
    → w + s < 2 ^ 32
    → add_words (pre ++ (w ∷ post)) 0 ≡ s + w
unfolding total
add_words_about pre w post s is room =
    let parts = total-append pre (w ∷ post) in
    omega (arith, parts, add_words-total (pre ++ (w ∷ post)) 0 (omega (arith, parts)))

fold_once : (s : ℕ) → s < 4294901760 → (fold (s + fold s) ≡ 0) ↔ (s % 65536 + s / 65536 < 65536)
fold_once s room = ((λ e. omega arith), (λ h. omega arith))

-- The checksum of a header whose checksum field is 0 is put into that field. Then `net_ip_checksum` of
-- the header is 0, as a receiver checks, exactly if adding the carry to the sum of the words does not
-- give another carry.
pub checksum_words-zero :
    (pre post : List ℕ) (s : ℕ)
    → s ≡ total pre + total post
    → s < 4294901760
    → (checksum_words (pre ++ (checksum_words (pre ++ (0 ∷ post)) ∷ post)) ≡ 0)
      ↔ (s % 65536 + s / 65536 < 65536)
unfolding checksum_words
checksum_words-zero pre post s is room =
    let first : add_words (pre ++ (0 ∷ post)) 0 ≡ s =
      omega (arith, add_words_about pre 0 post s is (omega arith)) in
    let second = add_words_about pre (fold s) post s is (omega arith) in
    rw (first, second) (fold_once s room)
