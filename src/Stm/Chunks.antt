-- ===== src/Stm/Chunks.antt =====
-- rts/STM.c: the chunks of a record.
use ghc_xapp_fix.Prelude.{
  ℕ, ◌≤◌, ◌≡◌, refl, List, [], ◌∷◌, length, length-append, ltb, ◌==◌, All, arith, Bool-cases, inl,
  inr, Option-cases,
}
use ghc_xapp_fix.Stm.Trec.{
  TrecEntry, TrecChunk, Trec, trec_chunk_num_entries, find_entry, set_new, holds, set_in_chunks,
  add_to_chunks, entries, merge_update_into, merge_read_into, merge_updates, merge_reads,
  get_entry_for, find_outside,
}
use ghc_xapp_fix.Stm.Ops.{stm_read_tvar, stm_write_tvar}

-- The current chunk has room for its entries, and the chunks before it are full.
abbrev pub IsChunkList : List TrecChunk → Type 0
IsChunkList [] = ⊥
IsChunkList (c ∷ cs) =
    (length c ≤ trec_chunk_num_entries) × All (λ d. length d ≡ trec_chunk_num_entries) cs

abbrev pub IsChunked : Trec → Type 0
IsChunked t = IsChunkList t.chunks

add_to_chunks-IsChunkList :
    (ne : TrecEntry) (cs : List TrecChunk) → IsChunkList cs → IsChunkList (add_to_chunks ne cs)
unfolding add_to_chunks
add_to_chunks-IsChunkList ne [] h = absurd h
add_to_chunks-IsChunkList ne (c ∷ cs) h = elim (Bool-cases (ltb (length c) 16)) [
  | inl s ↦ rw s (ground (arith, s, length-append c (ne ∷ [])), h.1)
  | inr d ↦ rw d (omega arith, (ground (arith, d, h.0), h.1))
]

length-set_new : (x v : ℕ) (es : List TrecEntry) → length (set_new x v es) ≡ length es
unfolding set_new
length-set_new x v [] = refl
length-set_new x v (e ∷ es) = elim (Bool-cases (e.tvar == x)) [
  | inl s ↦ rw s refl
  | inr d ↦ rw d (omega (arith, length-set_new x v es))
]

set_in_chunks-full :
    (x v : ℕ) (cs : List TrecChunk)
    → All (λ d. length d ≡ trec_chunk_num_entries) cs
    → All (λ d. length d ≡ trec_chunk_num_entries) (set_in_chunks x v cs)
unfolding set_in_chunks
set_in_chunks-full x v [] h = tt
set_in_chunks-full x v (c ∷ cs) h = elim (Bool-cases (holds (find_entry x c))) [
  | inl s ↦ rw s (omega (arith, length-set_new x v c, h.0), h.1)
  | inr d ↦ rw d (h.0, set_in_chunks-full x v cs h.1)
]

set_in_chunks-IsChunkList :
    (x v : ℕ) (cs : List TrecChunk) → IsChunkList cs → IsChunkList (set_in_chunks x v cs)
unfolding set_in_chunks
set_in_chunks-IsChunkList x v [] h = absurd h
set_in_chunks-IsChunkList x v (c ∷ cs) h = elim (Bool-cases (holds (find_entry x c))) [
  | inl s ↦ rw s (omega (arith, length-set_new x v c, h.0), h.1)
  | inr d ↦ rw d (h.0, set_in_chunks-full x v cs h.1)
]

merge_update-IsChunked :
    (t : Trec) (e : TrecEntry) → IsChunked t → IsChunked (merge_update_into t e)
unfolding merge_update_into
merge_update-IsChunked t e h = elim (Option-cases (find_entry e.tvar (entries t))) [
  | inl n ↦ rw n (add_to_chunks-IsChunkList e t.chunks h)
  | inr (e', s) ↦ elim (Bool-cases (e'.expected_value == e.expected_value)) [
    | inl y ↦ rw (s, y) (set_in_chunks-IsChunkList e.tvar e.new_value t.chunks h)
    | inr d ↦ rw (s, d) (set_in_chunks-IsChunkList e.tvar e.new_value t.chunks h)
  ]
]

merge_read-IsChunked : (t : Trec) (x v : ℕ) → IsChunked t → IsChunked (merge_read_into t x v)
unfolding merge_read_into
merge_read-IsChunked t x v h = elim (Option-cases (find_entry x (entries t))) [
  | inl n ↦ rw n (add_to_chunks-IsChunkList _ t.chunks h)
  | inr (e', s) ↦ elim (Bool-cases (e'.expected_value == v)) [
    | inl y ↦ rw (s, y) h
    | inr d ↦ rw (s, d) h
  ]
]

merge_updates-IsChunked :
    (es : List TrecEntry) (t : Trec) → IsChunked t → IsChunked (merge_updates t es)
unfolding merge_updates
merge_updates-IsChunked [] t h = h
merge_updates-IsChunked (e ∷ es) t h =
    merge_updates-IsChunked es (merge_update_into t e) (merge_update-IsChunked t e h)

merge_reads-IsChunked :
    (es : List TrecEntry) (t : Trec) → IsChunked t → IsChunked (merge_reads t es)
unfolding merge_reads
merge_reads-IsChunked [] t h = h
merge_reads-IsChunked (e ∷ es) t h =
    merge_reads-IsChunked es (merge_read_into t e.tvar e.expected_value)
      (merge_read-IsChunked t e.tvar e.expected_value h)

read-IsChunked :
    (σ : ℕ → ℕ) (t : Trec) (outer : List Trec) (x : ℕ)
    → IsChunked t
    → IsChunked (stm_read_tvar σ t outer x).1
unfolding stm_read_tvar get_entry_for
read-IsChunked σ t outer x h = elim (Option-cases (find_entry x (entries t))) [
  | inr (e, s) ↦ rw s h
  | inl n ↦ elim (Option-cases (find_outside x outer)) [
    | inl m ↦ rw (n, m) (add_to_chunks-IsChunkList _ t.chunks h)
    | inr (e, s) ↦ rw (n, s) (add_to_chunks-IsChunkList _ t.chunks h)
  ]
]

write-IsChunked :
    (σ : ℕ → ℕ) (t : Trec) (outer : List Trec) (x v : ℕ)
    → IsChunked t
    → IsChunked (stm_write_tvar σ t outer x v)
unfolding stm_write_tvar get_entry_for
write-IsChunked σ t outer x v h = elim (Option-cases (find_entry x (entries t))) [
  | inr (e, s) ↦ rw s (set_in_chunks-IsChunkList x v t.chunks h)
  | inl n ↦ elim (Option-cases (find_outside x outer)) [
    | inl m ↦ rw (n, m) (add_to_chunks-IsChunkList _ t.chunks h)
    | inr (e, s) ↦ rw (n, s) (add_to_chunks-IsChunkList _ t.chunks h)
  ]
]

-- `FOR_EACH_ENTRY` may read `TREC_CHUNK_NUM_ENTRIES` entries of each chunk but the current one: in a
-- record that reads, writes, and takes in the entries of nested records from a state in which this
-- holds, the current chunk has at most so many entries, and each chunk before it has just as many.
pub steps-IsChunked :
    (σ : ℕ → ℕ) (t : Trec) (outer : List Trec) (x v : ℕ) (es : List TrecEntry)
    → IsChunked t
    → IsChunked (stm_read_tvar σ t outer x).1
      × IsChunked (stm_write_tvar σ t outer x v)
      × IsChunked (merge_updates t es)
      × IsChunked (merge_reads t es)
steps-IsChunked σ t outer x v es h = (
  read-IsChunked σ t outer x h,
  write-IsChunked σ t outer x v h,
  merge_updates-IsChunked es t h,
  merge_reads-IsChunked es t h,
)
