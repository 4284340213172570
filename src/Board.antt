-- ===== src/Board.antt =====
-- backend/internal/issue/repository.go: where `CreateIssue` and `Move` put an issue among the ranks of
-- its project.
pub mod Place
pub mod Before
mod Tests
use super_ops.Base.{
  ℕ, ◌≡◌, Bool, true, false, ◌&&◌, ◌||◌, not, List, [], ◌∷◌, Option, none, some, length,
  if◌then◌else◌,
}
use super_ops.Base.Bytes.{str_eq, str_lt}
use super_ops.Base.Fallible.{Result, ok, err, ◌>>=◌, ◌>>◌, guard}
use super_ops.Rank.{Error, exhausted, rank_between, renormalise}

abbrev pub Bytes : Type 0
Bytes = List ℕ

-- A row of issues, in what its place depends on.
pub record IssueRow : Type 0 where
  pub id : Bytes
  pub project_id : Bytes
  pub state_id : Bytes
  pub archived : Bool
  pub rank : Bytes

-- A row of issue_states.
pub record StateRow : Type 0 where
  pub id : Bytes
  pub project_id : Bytes

pub data BoardError : Type 0 where
  not_found cross_project bad_id : BoardError
  rank_error : Error → BoardError

abbrev pub lift {ℓ} : {A : Type ℓ} → Result Error A → Result BoardError A
lift (err e) = err (rank_error e)
lift (ok value) = ok value

unfoldable pub find_issue : Bytes → List IssueRow → Option IssueRow
unfolding str_eq
find_issue id [] = none
find_issue id (i ∷ is) = let rest = find_issue id is in if str_eq i.id id then some i else rest

-- `rankOf`, of an anchor that may be left out; one that is no uuid is an error of the database, as is a
-- state.
abbrev pub owned_rank : Bytes → Option IssueRow → Result BoardError Bytes
owned_rank project none = err not_found
owned_rank project (some i) = if str_eq i.project_id project then ok i.rank else err cross_project

unfoldable pub rank_of : (Bytes → Bool) → Bytes → Bytes → List IssueRow → Result BoardError Bytes
unfolding find_issue str_eq
rank_of is_uuid project id rows =
    if str_eq id []
    then ok []
    else if is_uuid id
    then owned_rank project (find_issue id rows)
    else err bad_id

-- The other live issues of the project.
abbrev pub is_other : Bytes → Bytes → IssueRow → Bool
is_other project moving i =
    str_eq i.project_id project && (not i.archived && not (str_eq i.id moving))

-- MIN and MAX of ranks, where NULL is the empty rank.
abbrev pub lesser : Bytes → Bytes → Bytes
lesser a [] = a
lesser a (b ∷ bs) = if str_lt (b ∷ bs) a then b ∷ bs else a

abbrev pub greater : Bytes → Bytes → Bytes
greater a b = if str_lt a b then b else a

-- `nextRankAfter` and `prevRankBefore`.
unfoldable pub next_rank_after : Bytes → Bytes → Bytes → List IssueRow → Bytes
unfolding str_eq str_lt
next_rank_after project lo moving [] = []
next_rank_after project lo moving (i ∷ is) =
    let rest = next_rank_after project lo moving is in
    if is_other project moving i && str_lt lo i.rank then lesser i.rank rest else rest

unfoldable pub prev_rank_before : Bytes → Bytes → Bytes → List IssueRow → Bytes
unfolding str_eq str_lt
prev_rank_before project hi moving [] = []
prev_rank_before project hi moving (i ∷ is) =
    let rest = prev_rank_before project hi moving is in
    if is_other project moving i && str_lt i.rank hi then greater i.rank rest else rest

-- The ranks that a drop is between: the anchor's, and that of its neighbour.
abbrev pub tightened : Bytes → Bytes → Bytes → Bytes → Bytes → List IssueRow → Bytes × Bytes
tightened project moving after lo hi rows =
    if not (str_eq after [])
    then (lo, next_rank_after project lo moving rows)
    else (prev_rank_before project hi moving rows, hi)

unfoldable pub drop_bounds :
    (Bytes → Bool)
    → Bytes
    → Bytes
    → Bytes
    → Bytes
    → List IssueRow
    → Result BoardError (Bytes × Bytes)
unfolding rank_of next_rank_after prev_rank_before str_eq
drop_bounds is_uuid project moving after before rows = do
  lo ← rank_of is_uuid project after rows
  hi ← rank_of is_uuid project before rows
  ok (tightened project moving after lo hi rows)

-- One try of `Move`'s rank.
unfoldable pub drop_rank :
    (Bytes → Bool) → Bytes → Bytes → Bytes → Bytes → List IssueRow → Result BoardError Bytes
unfolding drop_bounds rank_between
drop_rank is_uuid project moving after before rows = do
  bounds ← drop_bounds is_uuid project moving after before rows
  lift (rank_between bounds.0 bounds.1)

-- `renormalise`: the issues of the project in the order of rank and id get the ranks of a column.
abbrev pub comes_before : IssueRow → IssueRow → Bool
comes_before a b = str_lt a.rank b.rank || (str_eq a.rank b.rank && str_lt a.id b.id)

unfoldable pub insert : IssueRow → List IssueRow → List IssueRow
unfolding str_eq str_lt
insert i [] = i ∷ []
insert i (j ∷ js) = let rest = insert i js in if comes_before i j then i ∷ j ∷ js else j ∷ rest

unfoldable pub in_order_of_rank : Bytes → List IssueRow → List IssueRow
unfolding insert
in_order_of_rank project [] = []
in_order_of_rank project (i ∷ is) =
    let rest = in_order_of_rank project is in
    if str_eq i.project_id project then insert i rest else rest

unfoldable pub set_rank : Bytes → Bytes → List IssueRow → List IssueRow
unfolding str_eq
set_rank id rank [] = []
set_rank id rank (i ∷ is) =
    let rest = set_rank id rank is in
    if str_eq i.id id then record i { rank = rank } ∷ rest else i ∷ rest

unfoldable pub set_ranks : List IssueRow → List Bytes → List IssueRow → List IssueRow
unfolding set_rank
set_ranks [] ranks rows = rows
set_ranks (i ∷ is) [] rows = rows
set_ranks (i ∷ is) (r ∷ ranks) rows = set_ranks is ranks (set_rank i.id r rows)

unfoldable pub renormalise_project : Bytes → List IssueRow → Result BoardError (List IssueRow)
unfolding in_order_of_rank set_ranks renormalise
renormalise_project project rows =
    let sorted = in_order_of_rank project rows in
    do ranks ← lift (renormalise (length sorted)); ok (set_ranks sorted ranks rows)

-- The rank of a drop: once more after a renormalisation where the gap has no room.
abbrev pub or_again :
    Result BoardError Bytes
    → Result BoardError (Bytes × List IssueRow)
    → List IssueRow
    → Result BoardError (Bytes × List IssueRow)
or_again (ok rank) again rows = ok (rank, rows)
or_again (err (rank_error exhausted)) again rows = again
or_again (err problem) again rows = err problem

unfoldable pub drop :
    (Bytes → Bool)
    → Bytes
    → Bytes
    → Bytes
    → Bytes
    → List IssueRow
    → Result BoardError (Bytes × List IssueRow)
unfolding drop_rank renormalise_project
drop is_uuid project moving after before rows =
    or_again (drop_rank is_uuid project moving after before rows)
      (do
        fresh ← renormalise_project project rows
        rank ← drop_rank is_uuid project moving after before fresh
        ok (rank, fresh))
      rows

-- `Move`: the state that is asked for has to be one of the project's.
unfoldable pub has_state : Bytes → Bytes → List StateRow → Bool
unfolding str_eq
has_state project id [] = false
has_state project id (s ∷ ss) =
    (str_eq s.project_id project && str_eq s.id id) || has_state project id ss

abbrev pub target_state :
    (Bytes → Bool) → IssueRow → Bytes → List StateRow → Result BoardError Bytes
target_state is_uuid i wanted states =
    if not (str_eq wanted []) && not (str_eq wanted i.state_id)
    then (do
      guard (is_uuid wanted) bad_id
      guard (has_state i.project_id wanted states) cross_project
      ok wanted)
    else ok i.state_id

unfoldable pub set_place : Bytes → Bytes → Bytes → List IssueRow → List IssueRow
unfolding str_eq
set_place id rank state [] = []
set_place id rank state (i ∷ is) =
    let rest = set_place id rank state is in
    if str_eq i.id id then record i { rank = rank; state_id = state } ∷ rest else i ∷ rest

-- Without an anchor the rank stays.
abbrev pub placed :
    (Bytes → Bool)
    → IssueRow
    → Bytes
    → Bytes
    → List IssueRow
    → Result BoardError (Bytes × List IssueRow)
placed is_uuid i after before rows =
    if str_eq after [] && str_eq before []
    then ok (i.rank, rows)
    else drop is_uuid i.project_id i.id after before rows

abbrev pub move_found :
    (Bytes → Bool)
    → Option IssueRow
    → Bytes
    → Bytes
    → Bytes
    → List StateRow
    → List IssueRow
    → Result BoardError (List IssueRow)
move_found is_uuid none after before wanted states rows = err not_found
move_found is_uuid (some i) after before wanted states rows = do
  target ← target_state is_uuid i wanted states
  place ← placed is_uuid i after before rows
  ok (set_place i.id place.0 target place.1)

-- `Move`; when the issue was completed, and the note of its activity, are left out.
unfoldable pub move :
    (Bytes → Bool)
    → Bytes
    → Bytes
    → Bytes
    → Bytes
    → List StateRow
    → List IssueRow
    → Result BoardError (List IssueRow)
unfolding find_issue has_state drop set_place str_eq
move is_uuid id after before wanted states rows =
    move_found is_uuid (find_issue id rows) after before wanted states rows

-- `CreateIssue`: the rank of a new issue is in front of the lowest of the project's live ones. No id and
-- no rank is empty, so that the query for the lowest is that for the next one after nothing.
unfoldable pub create_rank : Bytes → List IssueRow → Result BoardError Bytes
unfolding next_rank_after rank_between
create_rank project rows = lift (rank_between [] (next_rank_after project [] [] rows))
