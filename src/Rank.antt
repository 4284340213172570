-- ===== src/Rank.antt =====
-- backend/internal/issue/rank.go: a rank is a string over 62 digits, compared bytewise, and a new
-- rank fits strictly between two neighbours.
pub mod Digits
pub mod Ends
pub mod Rounds
pub mod Between
pub mod Correct
pub mod Total
pub mod ZeroEnd
pub mod Spread
pub mod Renormalise
pub mod Tests
use super_ops.Base.{
  ℕ, zero, suc, ◌+◌, ◌-◌, ◌*◌, ◌/◌, ◌%◌, Bool, true, false, ◌&&◌, ◌||◌, List, [], ◌∷◌, ◌++◌, ltb,
  leb, if◌then◌else◌, length, get_or,
}
use super_ops.Base.Fallible.{Result, ok, err, ◌>>=◌, ◌>>◌, guard}
use super_ops.Base.Int.{ℤ, pos, negsuc, pos_part, ◌+ℤ◌, ◌-ℤ◌, ltb_ℤ, eq_ℤ}
use super_ops.Base.Bytes.{codes, str_lt}

pub data Error : Type 0 where
  exhausted order too_long not_a_digit too_many : Error

abbrev pub alphabet : List ℕ
alphabet = codes "0123456789ABCDEFGHIJKLMNOPQRSTUVWXYZabcdefghijklmnopqrstuvwxyz"

abbrev pub base : ℕ
base = 62

abbrev pub max_rank_length : ℕ
max_rank_length = 64

abbrev pub initial : List ℕ
initial = codes "U"

-- `alphabet[i]`.
unfoldable pub digit : ℕ → ℕ
digit i = get_or alphabet i 0

-- The -1 of the source is `negsuc 0`.
unfoldable pub index : ℕ → ℤ
index c =
    if leb b'0' c && leb c b'9'
    then pos (c - b'0')
    else if leb b'A' c && leb c b'Z'
    then pos (c - b'A' + 10)
    else if leb b'a' c && leb c b'z'
    then pos (c - b'a' + 36)
    else negsuc 0

unfoldable pub validate_digits : List ℕ → Result Error (Unit {0})
validate_digits [] = ok tt
validate_digits (c ∷ cs) = if ltb_ℤ (index c) (pos 0) then err not_a_digit else validate_digits cs

-- The empty rank passes both tests, as it passes the early return of the source.
unfoldable pub validate : List ℕ → Result Error (Unit {0})
unfolding validate_digits
validate rank = if ltb max_rank_length (length rank) then err too_long else validate_digits rank

-- `s[:len(s)-1]` and `s[len(s)-1]` of a string that is not empty.
abbrev pub front : ℕ → List ℕ → List ℕ
front c [] = []
front c (d ∷ cs) = c ∷ front d cs

abbrev pub final : ℕ → List ℕ → ℕ
final c [] = c
final c (d ∷ cs) = final d cs

unfoldable pub after : List ℕ → Result Error (List ℕ)
after [] = ok initial
after (c ∷ cs) =
    let lo = c ∷ cs in
    let last = index (final c cs) in
    if ltb_ℤ (last +ℤ pos 1) (pos (base - 1))
    then ok (front c cs ++ digit (pos_part (last +ℤ pos base) / 2) ∷ [])
    else if ltb max_rank_length (length lo + 1)
    then err exhausted
    else ok (lo ++ initial)

unfoldable pub before : List ℕ → Result Error (List ℕ)
before [] = ok initial
before (c ∷ cs) =
    let hi = c ∷ cs in
    let first = index (final c cs) in
    if ltb_ℤ (pos 1) first
    then ok (front c cs ++ digit (pos_part first / 2) ∷ [])
    else if ltb max_rank_length (length hi + 1)
    then err exhausted
    else ok (front c cs ++ digit 0 ∷ initial)

-- The last lines of the loop's body: the tail of `lo` goes above itself under the lower digit.
unfoldable pub adjacent : ℕ → List ℕ → List ℕ → Result Error (List ℕ)
unfolding after
adjacent l lo_rest out = do
  tail ← after lo_rest
  guard (leb (length out + 1 + length tail) max_rank_length) exhausted
  ok (out ++ digit l ∷ tail)

-- One round of the loop of `between`; `next` is what the rounds after it return.
unfoldable pub between_round :
    ℤ → ℤ → List ℕ → List ℕ → Result Error (List ℕ) → Result Error (List ℕ)
unfolding adjacent
between_round l h lo_rest out next =
    if eq_ℤ l h
    then if leb max_rank_length (length out) then err exhausted else next
    else if ltb_ℤ (pos 1) (h -ℤ l)
    then ok (out ++ digit (pos_part (l +ℤ h) / 2) ∷ [])
    else adjacent (pos_part l) lo_rest out

-- The loop of `between` from one position on: what is left of the two bounds, and what is written.
-- Past the end `digitAt` is the default, 0 for `lo` and one past the highest for `hi`; with both
-- ended the two differ, so no round follows.
unfoldable pub between_loop : List ℕ → List ℕ → List ℕ → Result Error (List ℕ)
unfolding between_round
between_loop [] [] out = between_round (pos 0) (pos base) [] out (err exhausted)
between_loop [] (h ∷ hi) out =
    between_round (pos 0) (index h) [] out (between_loop [] hi (out ++ digit 0 ∷ []))
between_loop (l ∷ lo) [] out =
    between_round (index l) (pos base) lo out
      (between_loop lo [] (out ++ digit (pos_part (index l)) ∷ []))
between_loop (l ∷ lo) (h ∷ hi) out =
    between_round (index l) (index h) lo out
      (between_loop lo hi (out ++ digit (pos_part (index l)) ∷ []))

unfoldable pub between : List ℕ → List ℕ → Result Error (List ℕ)
unfolding between_loop
between lo hi = between_loop lo hi []

abbrev pub is_empty : List ℕ → Bool
is_empty [] = true
is_empty (c ∷ cs) = false

abbrev dispatch : List ℕ → List ℕ → Result Error (List ℕ)
dispatch [] [] = ok initial
dispatch [] (h ∷ hi) = before (h ∷ hi)
dispatch (l ∷ lo) [] = after (l ∷ lo)
dispatch (l ∷ lo) (h ∷ hi) = between (l ∷ lo) (h ∷ hi)

-- `Between`, which names the two neighbours of a new rank.
unfoldable pub rank_between : List ℕ → List ℕ → Result Error (List ℕ)
unfolding validate before after between
rank_between lo hi = do
  validate lo
  validate hi
  guard (is_empty lo || is_empty hi || str_lt lo hi) order
  dispatch lo hi

-- `encode` fills its buffer from the end, so what is filled so far comes after.
unfoldable pub encode_onto : ℕ → ℕ → List ℕ → List ℕ
encode_onto value zero buf = buf
encode_onto value (suc width) buf = encode_onto (value / base) width (digit (value % base) ∷ buf)

unfoldable pub encode : ℕ → ℕ → List ℕ
unfolding encode_onto
encode value width = encode_onto value width []

-- The loop that picks the width, from `width` and its capacity; it stops past 8, so eight rounds
-- are enough and the ninth width is the error.
unfoldable pub pick_width : ℕ → ℕ → ℕ → ℕ → Result Error (ℕ × ℕ)
pick_width zero n width capacity = err too_many
pick_width (suc fuel) n width capacity =
    let wider = pick_width fuel n (width + 1) (capacity * base) in
    if ltb capacity (n * 2)
    then if ltb 8 (width + 1) then err too_many else wider
    else ok (width, capacity)

unfoldable pub spread : ℕ → ℕ → ℕ → ℕ → List (List ℕ)
unfolding encode
spread step width i zero = []
spread step width i (suc left) = encode ((i + 1) * step) width ∷ spread step width (i + 1) left

abbrev pub at_least_one : ℕ → ℕ
at_least_one step = if ltb step 1 then 1 else step

-- `Renormalise`: `n` ranks spread over the space.
unfoldable pub renormalise : ℕ → Result Error (List (List ℕ))
unfolding pick_width spread
renormalise zero = ok []
renormalise (suc zero) = ok (initial ∷ [])
renormalise (suc (suc k)) = do
  let n = suc (suc k)
  (width, capacity) ← pick_width 9 n 1 base
  ok (spread (at_least_one (capacity / (n + 1))) width 0 n)
