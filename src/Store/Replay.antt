-- ===== src/Store/Replay.antt =====
-- Lemmas on reserve_request and put_result of noble/store.py.
use noble_cascade.Errors.{ok}
use noble_cascade.Models.{ExecutionResult}
use noble_cascade.Prelude.{
  List, String, [], arith, eq_iff, eq_refl, false, is_some, keep, not, refl, true, ℕ, ◌++◌, ◌==◌,
  ◌||◌, ◌∷◌, ◌≡◌,
}
use noble_cascade.Store.Records.{is_taken, keyed, put_result, reserve_request, result_key}
use noble_cascade.Store.Rows.{delete_rows, find_row, find_row-append, insert_row}
use noble_cascade.Store.Tables.{Store}

-- The calls that touch the two tables of requests.
pub data RequestOp : Type 0 where
  reserve : String → ℕ → RequestOp
  finish : ExecutionResult → RequestOp

unfoldable pub apply : Store → RequestOp → Store
apply s (reserve request_id now) = (reserve_request request_id now s).1
apply s (finish result) = (put_result result s).1

unfoldable pub apply_all : Store → List RequestOp → Store
apply_all s [] = s
apply_all s (op ∷ ops) = apply_all (apply s op) ops

-- what `find_row` finds after an INSERT of another row
is_some-append {ℓ} :
    {A : Type ℓ} (key : A → String) (k : String) (row : A) (rows : List A)
    → is_some (find_row key k (rows ++ row ∷ [])) ≡ (is_some (find_row key k rows) || key row == k)
is_some-append key k row rows = rw find_row-append (ground arith)

find_row-delete_ne {ℓ} :
    {A : Type ℓ} (key : A → String) (k j : String) (rows : List A)
    → (k == j) ≡ false
    → find_row key j (delete_rows key k rows) ≡ find_row key j rows
unfolding find_row delete_rows keep
find_row-delete_ne key k j [] n = refl
find_row-delete_ne key k j (r ∷ rs) n =
    ground (arith, find_row-delete_ne key k j rs n, eq_iff (key r) k, eq_iff (key r) j, eq_iff k j)

-- A reservation succeeds exactly when the identifier is free, and takes it.
pub reserve_request-takes :
    (request_id : String) (now : ℕ) (s : Store)
    → ((reserve_request request_id now s).0 ≡ ok (not (is_taken request_id s)))
      × (is_taken request_id (reserve_request request_id now s).1 ≡ true)
unfolding reserve_request is_taken
reserve_request-takes request_id now s = ground (
  arith,
  is_some-append keyed request_id (record { key = request_id; value = now }) s.request_reservations,
  eq_refl request_id,
)

reserve_request-keeps :
    (k request_id : String) (now : ℕ) (s : Store)
    → is_taken k s ≡ true
    → is_taken k (reserve_request request_id now s).1 ≡ true
unfolding reserve_request is_taken
reserve_request-keeps k request_id now s h = ground (
  arith,
  is_some-append keyed k (record { key = request_id; value = now }) s.request_reservations,
)

put_result-keeps :
    (k : String) (result : ExecutionResult) (s : Store)
    → is_taken k s ≡ true
    → is_taken k (put_result result s).1 ≡ true
unfolding put_result insert_row is_taken
put_result-keeps k result s h = ground (
  arith,
  is_some-append result_key k result s.requests,
  find_row-delete_ne keyed result.request_id k s.request_reservations,
)

apply-keeps :
    (k : String) (s : Store) (op : RequestOp) → is_taken k s ≡ true → is_taken k (apply s op) ≡ true
unfolding apply
apply-keeps k s (reserve request_id now) h = reserve_request-keeps k request_id now s h
apply-keeps k s (finish result) h = put_result-keeps k result s h

apply_all-keeps :
    (k : String) (s : Store) (ops : List RequestOp)
    → is_taken k s ≡ true
    → is_taken k (apply_all s ops) ≡ true
unfolding apply_all
apply_all-keeps k s [] h = h
apply_all-keeps k s (op ∷ ops) h = apply_all-keeps k (apply s op) ops (apply-keeps k s op h)

-- After any reservation of an identifier, granted or not, and whatever requests are reserved and
-- finished then, reserving it again is refused and changes nothing.
pub reserved_for_good :
    (request_id : String) (now later : ℕ) (s : Store) (ops : List RequestOp)
    → let t = apply_all (reserve_request request_id now s).1 ops in
      reserve_request request_id later t ≡ (ok false, t)
reserved_for_good request_id now later s ops =
    let t = apply_all (reserve_request request_id now s).1 ops in
    let taken =
      apply_all-keeps request_id (reserve_request request_id now s).1 ops
        (reserve_request-takes request_id now s).1 in
    unfold reserve_request in rw taken
