-- ===== src/Board/Tests.antt =====
-- A column of three issues, and one in another project.
use super_ops.Base.{
  ℕ, zero, suc, length, ◌≡◌, refl, true, false, Bool, ◌==◌, List, [], ◌∷◌, All, arith,
}
use super_ops.Base.Bytes.{codes, str_eq, str_lt}
use super_ops.Base.Fallible.{Result, ◌>>=◌, ok, err}
use super_ops.Rank.{exhausted, index, digit}
use super_ops.Rank.Digits.{EndsHigh}
use super_ops.Board.{
  BoardError, rank_error, Bytes, IssueRow, not_found, cross_project, bad_id, drop_rank, rank_of,
  is_other, move, create_rank,
}
use super_ops.Board.Place.{drop_rank-after}

-- A letter stands for a uuid.
abbrev is_uuid : Bytes → Bool
is_uuid id = length id == 1

abbrev project : Bytes
project = codes "p"

abbrev issue : Bytes → Bytes → IssueRow
issue id rank = record {
  id = id;
  project_id = project;
  state_id = codes "todo";
  archived = false;
  rank = rank;
}

-- A project whose issues are created one after the other and never moved: the lowest rank after each.
unfoldable lowest_after : ℕ → Bytes → Result BoardError Bytes
unfolding create_rank
lowest_after zero top = ok top
lowest_after (suc n) top =
    create_rank project (issue (codes "i") top ∷ []) >>= λ next. lowest_after n next

abbrev rows : List IssueRow
rows =
    issue (codes "a") (codes "F")
    ∷ issue (codes "b") (codes "U")
    ∷ issue (codes "c") (codes "k")
    ∷ record {
      id = codes "x";
      project_id = codes "q";
      state_id = codes "todo";
      archived = false;
      rank = codes "G";
    }
    ∷ []

rows-EndsHigh : All (λ x. EndsHigh x.rank) rows
rows-EndsHigh = (
  (λ e. absurd (omega (arith, e))),
  (
    (λ e. absurd (omega (arith, e))),
    ((λ e. absurd (omega (arith, e))), ((λ e. absurd (omega (arith, e))), tt)),
  ),
)

-- The 320th issue still has a rank, of the full length, and the next one has none: no creation
-- renormalises the project.
full_example : (lowest_after 319 (codes "U") >>= λ r. ok (length r)) ≡ ok 64
unfolding lowest_after index digit
full_example = refl

exhausted_example : lowest_after 320 (codes "U") ≡ err (rank_error exhausted)
unfolding lowest_after index digit
exhausted_example = refl

-- The third issue goes between the first two.
moved_example :
    move is_uuid (codes "c") (codes "a") [] [] [] rows
    ≡ ok (
        issue (codes "a") (codes "F")
        ∷ issue (codes "b") (codes "U")
        ∷ issue (codes "c") (codes "M")
        ∷ record {
          id = codes "x";
          project_id = codes "q";
          state_id = codes "todo";
          archived = false;
          rank = codes "G";
        }
        ∷ [])
unfolding move index digit
moved_example = refl

-- Anchors that are missing, in another project, or no uuid.
errors_example :
    (move is_uuid (codes "c") (codes "z") [] [] [] rows ≡ err not_found)
    × (move is_uuid (codes "c") (codes "x") [] [] [] rows ≡ err cross_project)
    × (move is_uuid (codes "c") (codes "xyz") [] [] [] rows ≡ err bad_id)
unfolding move
errors_example = (refl, refl, refl)

drop_rank-after_example :
    (lo : Bytes) × (rank_of is_uuid project (codes "a") rows ≡ ok lo)
    × (str_lt lo (codes "M") ≡ true)
    × All
        (λ x.
          is_other project (codes "c") x ≡ true
          → str_lt lo x.rank ≡ true
          → str_lt (codes "M") x.rank ≡ true)
        rows
unfolding drop_rank str_eq index digit
drop_rank-after_example =
    drop_rank-after is_uuid project (codes "c") (codes "a") [] (codes "M") rows refl rows-EndsHigh
      refl
