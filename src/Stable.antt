-- ===== src/Stable.antt =====
-- rts/Stable.c, includes/rts/Stable.h: the table of stable names and stable pointers. `none` is a
-- wild access: an entry outside the table, the hash table when it is `NULL`, or a pointer to an
-- entry where an object is meant, or the other way round.
pub mod Table
pub mod Valid
pub mod Names
pub mod Pointers
pub mod Collect
pub mod Hashed
mod Tests
use mathlib.Core.Option
use ghc_xapp_fix.Prelude.{
  ℕ, zero, suc, ◌+◌, ◌-◌, ◌*◌, ◌%◌, ◌^◌, Bool, true, false, not, ◌&&◌, Option, none, some, ltb,
  ◌==◌, if◌then◌else◌, update, ◌>>=◌,
}
use ghc_xapp_fix.Stable.Table.{AddressTable}

-- what the field `addr` of an entry points to: the range tests of the C code tell an object of the
-- heap from an entry of the table, to which the free list of entries points
pub data Pointer : Type 0 where
  null : Pointer
  object : ℕ → Pointer
  entry : ℕ → Pointer

-- `snEntry`; a number is the address of an object, or 0 for `NULL`
pub record SnEntry : Type 0 where
  pub addr : Pointer
  pub old : ℕ
  pub ref : ℕ
  pub sn_obj : ℕ

abbrev pub init_spt_size : ℕ
init_spt_size = 64

-- Pointers to entries are indices. The entry at index 0 is never used.
abbrev pub pointer_to : Option ℕ → Pointer
pointer_to none = null
pointer_to (some i) = entry i

-- the casts of `addr` to a pointer to an entry, and to a key
abbrev pub next_free : Pointer → Option (Option ℕ)
next_free null = some none
next_free (entry i) = some (some i)
next_free (object a) = none

abbrev pub is_null : Pointer → Bool
is_null null = true
is_null _ = false

abbrev pub key_of : Pointer → Option ℕ
key_of (object a) = some a
key_of _ = none

-- the loop of `initFreeList`, from the last entry down
unfoldable pub link_entries : (ℕ → SnEntry) → ℕ → ℕ → Pointer → ℕ → SnEntry
link_entries table base zero free = table
link_entries table base (suc n) free =
    link_entries (update table (base + n) (record { addr = free; old = 0; ref = 0; sn_obj = 0 }))
      base n (entry (base + n))

-- The loop of `removeIndirections`, for an address without tag: `heap` gives the `indirectee` of
-- each closure that is an indirection. The caller drops the tag of the result.
abbrev pub untag : ℕ → ℕ
untag p = p - p % 8

unfoldable pub remove_indirections : (ℕ → Option ℕ) → ℕ → ℕ → Option ℕ
remove_indirections heap zero q = none
remove_indirections heap (suc fuel) q = elim (heap q) [
  | none ↦ some q
  | some p ↦ remove_indirections heap fuel (untag p)
]

-- The body of the loop of `markStablePtrTable`: `evac` gives where an object moves to.
abbrev pub mark_addr : (ℕ → ℕ) → SnEntry → Pointer → SnEntry
mark_addr evac e null = e
mark_addr evac e (entry i) = e
mark_addr evac e (object q) = record e {
  old = q;
  addr = if e.ref == 0 then object q else object (evac q);
}

abbrev pub mark_entry : (ℕ → ℕ) → SnEntry → SnEntry
mark_entry evac e = mark_addr evac e e.addr

abbrev pub thread_entry : (ℕ → ℕ) → SnEntry → SnEntry
thread_entry evac e = record e {
  sn_obj = if e.sn_obj == 0 then 0 else evac e.sn_obj;
  addr = elim e.addr [ object q ↦ object (evac q) | null ↦ null | entry i ↦ entry i ];
}

-- a loop over the entries from 1 to `n`, each of which changes for itself
unfoldable pub each_entry : (SnEntry → SnEntry) → ℕ → (ℕ → SnEntry) → ℕ → SnEntry
each_entry f zero table = table
each_entry f (suc n) table =
    update (each_entry f n table) (suc n) (f (each_entry f n table (suc n)))

module _ (T : AddressTable) where
  open T use {Table, alloc, lookup, insert, remove, free}

  -- `SPT_size`, `stable_ptr_table`, `stable_ptr_free` and `addrToStableHash`
  pub record StableTable : Type 0 where
    pub spt_size : ℕ
    pub table : ℕ → SnEntry
    pub stable_ptr_free : Option ℕ
    pub hash : Option Table

  abbrev pub entry_at : StableTable → ℕ → Option SnEntry
  entry_at s i = if ltb i s.spt_size then some (s.table i) else none

  unfoldable pub init_stable_ptr_table : StableTable → StableTable
  init_stable_ptr_table s = if ltb 0 s.spt_size then s else record {
    spt_size = init_spt_size;
    table = link_entries s.table 1 (init_spt_size - 1) null;
    stable_ptr_free = some 1;
    hash = some alloc;
  }

  -- `SPT_size` is an `unsigned int`: where it wraps, `initFreeList` writes past the block.
  unfoldable pub enlarge_stable_ptr_table : StableTable → Option StableTable
  enlarge_stable_ptr_table s =
      let size = s.spt_size * 2 % 2 ^ 32 in
      if ltb size (s.spt_size + s.spt_size)
      then none
      else some (record s {
        spt_size = size;
        table = link_entries s.table s.spt_size s.spt_size null;
        stable_ptr_free = some s.spt_size;
      })

  abbrev pub enlarge_if_none : StableTable → Option ℕ → Option StableTable
  enlarge_if_none s none = enlarge_stable_ptr_table s
  enlarge_if_none s (some _) = some s

  -- the start of `lookupStableName_`
  abbrev pub with_free : StableTable → Option StableTable
  with_free s = enlarge_if_none s s.stable_ptr_free

  -- the branch of `lookupStableName_` for an object that has no name
  unfoldable pub new_name : StableTable → Table → ℕ → Option (ℕ × StableTable)
  new_name s h a = do
    sn ← s.stable_ptr_free
    e ← entry_at s sn
    next ← next_free e.addr
    h' ← insert h a sn
    some (
      sn,
      record s {
        table = update s.table sn (record e { addr = object a; ref = 0; sn_obj = 0 });
        stable_ptr_free = next;
        hash = some h';
      },
    )

  unfoldable pub lookup_stable_name_ :
      (ℕ → Option ℕ) → ℕ → StableTable → ℕ → Option (ℕ × StableTable)
  lookup_stable_name_ heap fuel s p = do
    s' ← with_free s
    a ← remove_indirections heap fuel (untag p)
    h ← s'.hash
    sn ← lookup h a
    if not (sn == 0) then some (sn, s') else new_name s' h a

  unfoldable pub lookup_stable_name :
      (ℕ → Option ℕ) → ℕ → StableTable → ℕ → Option (ℕ × StableTable)
  lookup_stable_name heap fuel s p = lookup_stable_name_ heap fuel (init_stable_ptr_table s) p

  unfoldable pub free_stable_name : StableTable → ℕ → Option StableTable
  free_stable_name s i = do
    e ← entry_at s i
    h ←
        if is_null e.addr
        then some s.hash
        else do a ← key_of e.addr; h ← s.hash; h' ← remove h a; some (some h')
    some (record s {
      table = update s.table i (record e { addr = pointer_to s.stable_ptr_free });
      stable_ptr_free = some i;
      hash = h;
    })

  unfoldable pub get_stable_ptr : (ℕ → Option ℕ) → ℕ → StableTable → ℕ → Option (ℕ × StableTable)
  get_stable_ptr heap fuel s p = do
    (sn, s') ← lookup_stable_name_ heap fuel (init_stable_ptr_table s) p
    e ← entry_at s' sn
    some (sn, record s' { table = update s'.table sn (record e { ref = (e.ref + 1) % 2 ^ 64 }) })

  unfoldable pub free_stable_ptr : StableTable → ℕ → Option StableTable
  free_stable_ptr s sp = do
    let s' = init_stable_ptr_table s
    e ← entry_at s' sp
    let ref = (e.ref + 2 ^ 64 - 1) % 2 ^ 64
    let s'' = record s' { table = update s'.table sp (record e { ref = ref }) }
    if e.sn_obj == 0 && ref == 0 then free_stable_name s'' sp else some s''

  unfoldable pub de_ref_stable_ptr : StableTable → ℕ → Option Pointer
  de_ref_stable_ptr s sp = do e ← entry_at s sp; some e.addr

  unfoldable pub mark_stable_ptr_table : (ℕ → ℕ) → StableTable → StableTable
  mark_stable_ptr_table evac s = record s {
    table = each_entry (mark_entry evac) (s.spt_size - 1) s.table;
  }

  unfoldable pub thread_stable_ptr_table : (ℕ → ℕ) → StableTable → StableTable
  thread_stable_ptr_table evac s = record s {
    table = each_entry (thread_entry evac) (s.spt_size - 1) s.table;
  }

  unfoldable pub exit_stable_ptr_table : StableTable → Option StableTable
  exit_stable_ptr_table s = do
    _ ← elim s.hash [ none ↦ some tt | some h ↦ free h ]
    some (record s { spt_size = 0; stable_ptr_free = s.stable_ptr_free; hash = none })
