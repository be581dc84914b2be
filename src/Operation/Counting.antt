-- ===== src/Operation/Counting.antt =====
-- What `getResponsesStatuses` returns: for each keyword, how many rows there are of each status.
use trex_dkg.Prelude.{
  ℕ, ◌+◌, ◌≡◌, refl, ◌∙◌, true, Option, some, List, [], ◌∷◌, ◌++◌, Dict, String, lookup,
  lookup-insert, ◌==◌, if◌then◌else◌, arith,
}
use trex_dkg.Operation.Data.{OperationName, same_operation, RequestStatus, Response, World}
use trex_dkg.Operation.Service.{
  Counts, no_counts, counts_or_zero, bump, count_response, count_responses, responses_of,
  create_response,
}

-- The rows of one keyword, counted without a table.
unfoldable pub tally : ℕ → List Response → Counts
tally k [] = no_counts
tally k (r ∷ rs) = let rest = tally k rs in if r.keyword == k then bump r.status rest else rest

abbrev pub add : Counts → Counts → Counts
add c e = record {
  failed_number = c.failed_number + e.failed_number;
  completed_number = c.completed_number + e.completed_number;
}

add-bump : (s : RequestStatus) (c e : Counts) → add (bump s c) e ≡ add c (bump s e)
add-bump RequestStatus.failed c e = ground arith
add-bump RequestStatus.completed c e = ground arith

counts-count_response :
    (k : ℕ) (statuses : Dict Counts) (r : Response)
    → counts_or_zero (lookup k (count_response statuses r)) ≡ (
        if r.keyword == k
        then bump r.status (counts_or_zero (lookup k statuses))
        else counts_or_zero (lookup k statuses))
counts-count_response k statuses r = ground (
  arith,
  lookup-insert r.keyword k (bump r.status (counts_or_zero (lookup r.keyword statuses))) statuses,
)

-- The table agrees with the plain count, from any start.
pub counts-count_responses :
    (k : ℕ) (statuses : Dict Counts) (rs : List Response)
    → counts_or_zero (lookup k (count_responses statuses rs))
      ≡ add (counts_or_zero (lookup k statuses)) (tally k rs)
unfolding count_responses tally
counts-count_responses k statuses [] = ground arith
counts-count_responses k statuses (r ∷ rs) =
    counts-count_responses k (count_response statuses r) rs
    ∙ ground (
      arith,
      counts-count_response k statuses r,
      add-bump r.status (counts_or_zero (lookup k statuses)) (tally k rs),
    )

bump_comm : (s t : RequestStatus) (c : Counts) → bump s (bump t c) ≡ bump t (bump s c)
bump_comm RequestStatus.failed RequestStatus.failed c = refl
bump_comm RequestStatus.failed RequestStatus.completed c = refl
bump_comm RequestStatus.completed RequestStatus.failed c = refl
bump_comm RequestStatus.completed RequestStatus.completed c = refl

-- How many rows there are after one more.
pub tally-append_one :
    (k : ℕ) (rs : List Response) (r : Response)
    → r.keyword ≡ k
    → tally k (rs ++ r ∷ []) ≡ bump r.status (tally k rs)
unfolding tally
tally-append_one k [] r h = ground arith
tally-append_one k (x ∷ rs) r h =
    grind (arith, tally-append_one k rs r h, bump_comm x.status r.status (tally k rs))

count_responses-append_one :
    (statuses : Dict Counts) (rs : List Response) (r : Response)
    → count_responses statuses (rs ++ r ∷ []) ≡ count_response (count_responses statuses rs) r
unfolding count_responses
count_responses-append_one statuses [] r = refl
count_responses-append_one statuses (x ∷ rs) r =
    count_responses-append_one (count_response statuses x) rs r

-- The keyword that has just been answered for is in the table, with the counts of its rows.
pub lookup-count_responses :
    (k : ℕ) (rs : List Response) (r : Response)
    → r.keyword ≡ k
    → lookup k (count_responses [] (rs ++ r ∷ [])) ≡ some (bump r.status (tally k rs))
lookup-count_responses k rs r h = grind (
  arith,
  count_responses-append_one [] rs r,
  lookup-insert r.keyword k
      (bump r.status (counts_or_zero (lookup r.keyword (count_responses [] rs))))
      (count_responses [] rs),
  counts-count_responses k [] rs,
)

same_operation_refl : (o : OperationName) → same_operation o o ≡ true
same_operation_refl OperationName.publish = refl
same_operation_refl OperationName.update = refl
same_operation_refl OperationName.get = refl

responses_of-append_one :
    (operation : OperationName) (operation_id : ℕ) (rs : List Response) (r : Response)
    → same_operation r.operation operation ≡ true
    → r.operation_id ≡ operation_id
    → responses_of operation operation_id (rs ++ r ∷ [])
      ≡ responses_of operation operation_id rs ++ r ∷ []
unfolding responses_of
responses_of-append_one operation operation_id [] r same e = ground arith
responses_of-append_one operation operation_id (x ∷ rs) r same e =
    ground (arith, responses_of-append_one operation operation_id rs r same e)

-- The new row is among the operation's rows, and comes last.
pub responses_of-create_response :
    (operation : OperationName) (status : RequestStatus) (e : Option String)
    (operation_id keyword : ℕ) (w : World)
    → responses_of operation operation_id
        (create_response operation status e operation_id keyword w).responses
      ≡ responses_of operation operation_id w.responses
        ++ record {
          operation = operation;
          operation_id = operation_id;
          keyword = keyword;
          status = status;
          message = e;
        }
          ∷ []
unfolding create_response
responses_of-create_response operation status e operation_id keyword w =
    responses_of-append_one operation operation_id w.responses _ (same_operation_refl operation)
      refl

-- Every row is about one keyword.
abbrev pub OnlyKeyword : ℕ → List Response → Type 0
OnlyKeyword k [] = Unit
OnlyKeyword k (r ∷ rs) = (r.keyword ≡ k) × OnlyKeyword k rs

count_responses-only :
    (k : ℕ) (c : Counts) (rs : List Response)
    → OnlyKeyword k rs
    → count_responses ((k, c) ∷ []) rs ≡ (k, add c (tally k rs)) ∷ []
unfolding count_responses tally
count_responses-only k c [] h = ground arith
count_responses-only k c (r ∷ rs) h =
    grind (arith, count_responses-only k (bump r.status c) rs h.1, add-bump r.status c (tally k rs))

pub OnlyKeyword-append_one :
    (k : ℕ) (rs : List Response) (r : Response)
    → OnlyKeyword k rs
    → r.keyword ≡ k
    → OnlyKeyword k (rs ++ r ∷ [])
OnlyKeyword-append_one k [] r h e = (e, tt)
OnlyKeyword-append_one k (x ∷ rs) r h e = (h.0, OnlyKeyword-append_one k rs r h.1 e)

-- Where an operation has one keyword, the table has one entry.
pub count_responses-OnlyKeyword :
    (k : ℕ) (rs : List Response) (r : Response)
    → OnlyKeyword k rs
    → r.keyword ≡ k
    → count_responses [] (rs ++ r ∷ []) ≡ (k, bump r.status (tally k rs)) ∷ []
unfolding count_responses tally
count_responses-OnlyKeyword k [] r h e = ground arith
count_responses-OnlyKeyword k (x ∷ rs) r h e = ground (
  arith,
  count_responses-only x.keyword (bump x.status no_counts) (rs ++ r ∷ []),
  count_responses-only k (bump x.status no_counts) (rs ++ r ∷ [])
      (OnlyKeyword-append_one k rs r h.1 e),
  tally-append_one k rs r e,
  add-bump x.status no_counts (tally k (rs ++ r ∷ [])),
  bump_comm x.status r.status (tally k rs),
)
