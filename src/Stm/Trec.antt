-- ===== src/Stm/Trec.antt =====
-- rts/STM.c: transaction records, the search of their entries, and the merges of one into another.
use ghc_xapp_fix.Prelude.{
  ℕ, Bool, true, false, not, ◌&&◌, ◌||◌, Option, none, some, List, [], ◌∷◌, ◌++◌, length, ltb, ◌==◌,
  if◌then◌else◌,
}

abbrev pub trec_chunk_num_entries : ℕ
trec_chunk_num_entries = 16

abbrev pub config_use_read_phase : Bool
config_use_read_phase = false

pub data TrecState : Type 0 where
  trec_active : TrecState
  trec_condemned : TrecState
  trec_committed : TrecState
  trec_aborted : TrecState
  trec_waiting : TrecState

-- `new_value` is the address of a watch queue entry while the record waits
pub record TrecEntry : Type 0 where
  pub tvar : ℕ
  pub expected_value : ℕ
  pub new_value : ℕ

-- the entries of a chunk that are in use, in the order of their index
abbrev pub TrecChunk : Type 0
TrecChunk = List TrecEntry

-- an invariant to check, and the entries of the record of its execution
pub record InvariantCheck : Type 0 where
  pub invariant : ℕ
  pub my_execution : List TrecEntry

-- `current_chunk` is the head of `chunks`, and each chunk is followed by its `prev_chunk`
pub record Trec : Type 0 where
  pub state : TrecState
  pub chunks : List TrecChunk
  pub invariants_to_check : List InvariantCheck

abbrev pub is_condemned : TrecState → Bool
is_condemned trec_condemned = true
is_condemned _ = false

abbrev pub is_waiting : TrecState → Bool
is_waiting trec_waiting = true
is_waiting _ = false

unfoldable pub flatten : List TrecChunk → List TrecEntry
flatten [] = []
flatten (c ∷ cs) = c ++ flatten cs

-- the order of `FOR_EACH_ENTRY`
abbrev pub entries : Trec → List TrecEntry
entries t = flatten t.chunks

-- the state of a record that begins inside `outer`
abbrev pub inherited_state : List Trec → TrecState
inherited_state [] = trec_active
inherited_state (enclosing ∷ _) = enclosing.state

abbrev pub new_trec : List Trec → Trec
new_trec outer = record {
  state = inherited_state outer;
  chunks = [] ∷ [];
  invariants_to_check = [];
}

-- the first entry for a variable
unfoldable pub find_entry : ℕ → List TrecEntry → Option TrecEntry
find_entry tvar [] = none
find_entry tvar (e ∷ es) = if e.tvar == tvar then some e else find_entry tvar es

-- `e -> new_value = value` at the first entry for a variable
unfoldable pub set_new : ℕ → ℕ → List TrecEntry → List TrecEntry
set_new tvar value [] = []
set_new tvar value (e ∷ es) =
    if e.tvar == tvar then record e { new_value = value } ∷ es else e ∷ set_new tvar value es

abbrev pub holds : Option TrecEntry → Bool
holds none = false
holds (some _) = true

unfoldable pub set_in_chunks : ℕ → ℕ → List TrecChunk → List TrecChunk
set_in_chunks tvar value [] = []
set_in_chunks tvar value (c ∷ cs) =
    if holds (find_entry tvar c) then set_new tvar value c ∷ cs else c ∷ set_in_chunks tvar value cs

abbrev pub set_entry : Trec → ℕ → ℕ → Trec
set_entry t tvar value = record t { chunks = set_in_chunks tvar value t.chunks }

unfoldable pub add_to_chunks : TrecEntry → List TrecChunk → List TrecChunk
add_to_chunks ne [] = (ne ∷ []) ∷ []
add_to_chunks ne (c ∷ cs) =
    if ltb (length c) trec_chunk_num_entries then (c ++ (ne ∷ [])) ∷ cs else (ne ∷ []) ∷ c ∷ cs

-- `get_new_entry`, and the fields that its callers fill
abbrev pub get_new_entry : Trec → TrecEntry → Trec
get_new_entry t ne = record t { chunks = add_to_chunks ne t.chunks }

-- the check of an entry that is there already
abbrev pub merge_expected : ℕ → TrecEntry → Trec → Trec
merge_expected expected e t =
    if not (e.expected_value == expected) then record t { state = trec_condemned } else t

abbrev pub merge_update_found : Trec → TrecEntry → Option TrecEntry → Trec
merge_update_found t ne none = get_new_entry t ne
merge_update_found t ne (some e) =
    set_entry (merge_expected ne.expected_value e t) ne.tvar ne.new_value

-- `ne` holds the arguments `tvar`, `expected_value` and `new_value`
unfoldable pub merge_update_into : Trec → TrecEntry → Trec
merge_update_into t ne = merge_update_found t ne (find_entry ne.tvar (entries t))

abbrev pub merge_read_found : Trec → ℕ → ℕ → Option TrecEntry → Trec
merge_read_found t tvar expected none =
    get_new_entry t (record { tvar = tvar; expected_value = expected; new_value = expected })
merge_read_found t tvar expected (some e) = merge_expected expected e t

unfoldable pub merge_read_into : Trec → ℕ → ℕ → Trec
merge_read_into t tvar expected = merge_read_found t tvar expected (find_entry tvar (entries t))

-- the loops of the commit and of the abort of a nested record
unfoldable pub merge_updates : Trec → List TrecEntry → Trec
merge_updates t [] = t
merge_updates t (e ∷ es) = merge_updates (merge_update_into t e) es

unfoldable pub merge_reads : Trec → List TrecEntry → Trec
merge_reads t [] = t
merge_reads t (e ∷ es) = merge_reads (merge_read_into t e.tvar e.expected_value) es

abbrev pub entry_is_update : TrecEntry → Bool
entry_is_update e = not (e.expected_value == e.new_value)

abbrev pub cond_lock_tvar : (ℕ → ℕ) → ℕ → ℕ → Bool
cond_lock_tvar current_value tvar expected = current_value tvar == expected

unfoldable pub acquire_entries : (ℕ → ℕ) → Bool → List TrecEntry → Bool
acquire_entries current_value acquire_all [] = true
acquire_entries current_value acquire_all (e ∷ es) =
    let rest = acquire_entries current_value acquire_all es in
    if acquire_all || entry_is_update e
    then cond_lock_tvar current_value e.tvar e.expected_value && rest
    else rest

unfoldable pub validate_and_acquire_ownership : (ℕ → ℕ) → Trec → Bool → Bool
validate_and_acquire_ownership current_value t acquire_all =
    not (is_condemned t.state) && acquire_entries current_value acquire_all (entries t)

-- `get_entry_for` with the part of its result that its callers use: none; an entry of the innermost
-- record; or one of an enclosing record
pub data Found : Type 0 where
  not_found : Found
  found_here : TrecEntry → Found
  found_outside : TrecEntry → Found

abbrev pub first_found : Option TrecEntry → Option TrecEntry → Option TrecEntry
first_found (some e) rest = some e
first_found none rest = rest

unfoldable pub find_outside : ℕ → List Trec → Option TrecEntry
find_outside tvar [] = none
find_outside tvar (t ∷ outer) = first_found (find_entry tvar (entries t)) (find_outside tvar outer)

abbrev pub outside : Option TrecEntry → Found
outside none = not_found
outside (some e) = found_outside e

abbrev pub found_from : Option TrecEntry → Option TrecEntry → Found
found_from (some e) out = found_here e
found_from none out = outside out

unfoldable pub get_entry_for : Trec → List Trec → ℕ → Found
get_entry_for t outer tvar = found_from (find_entry tvar (entries t)) (find_outside tvar outer)
