-- ===== src/Account/Locks.antt =====
-- What `lockAccountBoundary` and `lockAccounts` check while they take the locks. Each operation runs
-- under its locks as one step, so the locks themselves change nothing.
use treckrr.Prelude.{
  ℤ, Bool, true, false, not, ◌&&◌, ◌||◌, Option, none, some, List, [], ◌∷◌, ◌++◌, ltb_ℤ, ◌==ℤ◌,
  if◌then◌else◌, Result, ok, err, ◌>>◌, refuse_if,
}
use treckrr.Account.Data.{
  Key, same_account, YearRow, NeighborRow, Books, Error, not_found, year_completed,
  neighbor_anonymized,
}

abbrev pub find_year : ℤ → List YearRow → Option YearRow
find_year id [] = none
find_year id (y ∷ ys) = if y.id ==ℤ id then some y else find_year id ys

abbrev pub find_neighbor : ℤ → List NeighborRow → Option NeighborRow
find_neighbor id [] = none
find_neighbor id (n ∷ ns) = if n.id ==ℤ id then some n else find_neighbor id ns

-- `lockAccount`
unfoldable pub is_member : Key → List Key → Bool
is_member k [] = false
is_member k (m ∷ ms) = same_account m k || is_member k ms

unfoldable pub lock_neighbor :
    {D : Type 0} → Books D → Key → Bool → Option NeighborRow → Result Error Bool
unfolding is_member
lock_neighbor b k allow_anonymized none = ok false
lock_neighbor b k allow_anonymized (some n) = do
  refuse_if (n.anonymized && not allow_anonymized) neighbor_anonymized
  ok (is_member k b.members)

unfoldable pub lock_year :
    {D : Type 0} → Books D → Key → Bool → Bool → Option YearRow → Result Error Bool
unfolding lock_neighbor
lock_year b k require_open allow_anonymized none = ok false
lock_year b k require_open allow_anonymized (some y) = do
  refuse_if (require_open && y.completed) year_completed
  lock_neighbor b k allow_anonymized (find_neighbor k.neighbor_id b.neighbors)

unfoldable pub lock_account_boundary :
    {D : Type 0} → Books D → Key → Bool → Bool → Result Error Bool
unfolding lock_year
lock_account_boundary b k require_open allow_anonymized =
    lock_year b k require_open allow_anonymized (find_year k.year_id b.years)

-- The order of `sortedUniqueAccounts`.
unfoldable pub key_less : Key → Key → Bool
key_less a b =
    if a.year_id ==ℤ b.year_id then ltb_ℤ a.neighbor_id b.neighbor_id else ltb_ℤ a.year_id b.year_id

unfoldable pub insert_key : Key → List Key → List Key
unfolding key_less
insert_key k [] = k ∷ []
insert_key k (j ∷ js) = if key_less j k then j ∷ insert_key k js else k ∷ j ∷ js

unfoldable pub sort_keys : List Key → List Key
unfolding insert_key
sort_keys [] = []
sort_keys (k ∷ ks) = insert_key k (sort_keys ks)

-- Neighboring copies are dropped; `last` is `unique[len(unique)-1]`.
unfoldable pub drop_repeats : Option Key → List Key → List Key
drop_repeats last [] = []
drop_repeats none (k ∷ ks) = k ∷ drop_repeats (some k) ks
drop_repeats (some j) (k ∷ ks) =
    (if same_account j k then [] else k ∷ []) ++ drop_repeats (some k) ks

unfoldable pub sorted_unique_accounts : List Key → List Key
unfolding sort_keys drop_repeats
sorted_unique_accounts ks = drop_repeats none (sort_keys ks)

-- The years; one that stands twice is looked up once in the source, to the same effect.
unfoldable pub lock_years : {D : Type 0} → Books D → Bool → List Key → Result Error (Unit {0})
lock_years b require_open [] = ok tt
lock_years b require_open (k ∷ ks) = elim (find_year k.year_id b.years) [
  | none ↦ err not_found
  | some y ↦ refuse_if (require_open && y.completed) year_completed >> lock_years b require_open ks
]

abbrev pub is_anonymized : Option NeighborRow → Bool
is_anonymized none = false
is_anonymized (some n) = n.anonymized

abbrev pub is_found : Option NeighborRow → Bool
is_found none = false
is_found (some n) = true

abbrev pub any_anonymized : List NeighborRow → List Key → Bool
any_anonymized ns [] = false
any_anonymized ns (k ∷ ks) = is_anonymized (find_neighbor k.neighbor_id ns) || any_anonymized ns ks

abbrev pub all_found : List NeighborRow → List Key → Bool
all_found ns [] = true
all_found ns (k ∷ ks) = is_found (find_neighbor k.neighbor_id ns) && all_found ns ks

abbrev pub all_members : List Key → List Key → Bool
all_members ms [] = true
all_members ms (k ∷ ks) = is_member k ms && all_members ms ks

-- `lockAccounts`: an anonymized neighbor among those that are there is reported before a missing one.
unfoldable pub lock_accounts :
    {D : Type 0} → Books D → List Key → Bool → Bool → Result Error (Unit {0})
unfolding lock_years sorted_unique_accounts is_member
lock_accounts b keys require_open allow_anonymized = do
  let accounts = sorted_unique_accounts keys
  lock_years b require_open accounts
  refuse_if (any_anonymized b.neighbors accounts && not allow_anonymized) neighbor_anonymized
  refuse_if (not (all_found b.neighbors accounts)) not_found
  refuse_if (not (all_members b.members accounts)) not_found
