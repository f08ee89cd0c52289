-- ===== src/Stm/Forget.antt =====
-- rts/STM.c: the abort of a nested transaction inside a nested transaction.
use ghc_xapp_fix.Prelude.{
  ℕ, suc, ◌≡◌, refl, ap, ◌∙◌, none, some, List, [], ◌∷◌, update, arith, inl, inr, ==_iff,
}
use ghc_xapp_fix.Stm.Trec.{
  TrecEntry, Trec, flatten, find_entry, entries, find_outside, add_to_chunks, merge_read_into,
  merge_reads, get_entry_for, get_new_entry, new_trec,
}
use ghc_xapp_fix.Stm.World.{World}
use ghc_xapp_fix.Stm.Ops.{stm_read_tvar, stm_abort_transaction}
use ghc_xapp_fix.Stm.Entries.{over, over-add}
use ghc_xapp_fix.Stm.Nest.{read-cases}

-- the entry that a read copies from an enclosing record
abbrev copied : ℕ → TrecEntry → TrecEntry
copied x e = record { tvar = x; expected_value = e.expected_value; new_value = e.new_value }

-- the record of a nested transaction that has read `x` only
read_alone :
    (σ : ℕ → ℕ) (et : Trec) (outer : List Trec) (x : ℕ) (e : TrecEntry)
    → find_entry x (entries et) ≡ none
    → find_outside x outer ≡ some e
    → entries (stm_read_tvar σ (new_trec (et ∷ outer)) (et ∷ outer) x).1 ≡ copied x e ∷ []
unfolding stm_read_tvar get_entry_for find_entry find_outside add_to_chunks flatten
read_alone σ et outer x e n s = rw (n, s) refl

update_here : (f : ℕ → ℕ) (i a : ℕ) → update f i a i ≡ a
update_here f i a = rw ((==_iff i i).1 refl) refl

-- what a read finds in a record to which an entry was added
read_added :
    (σ : ℕ → ℕ) (et : Trec) (outer : List Trec) (ne : TrecEntry)
    → find_entry ne.tvar (entries et) ≡ none
    → (stm_read_tvar σ (get_new_entry et ne) outer ne.tvar).0 ≡ ne.new_value
read_added σ et outer ne n =
    let w = over-add (λ _. suc ne.new_value) ne et.chunks n in
    let at_x =
      ap (λ f. f ne.tvar) w
      ∙ update_here (over (flatten et.chunks) (λ _. suc ne.new_value)) ne.tvar ne.new_value in
    elim (read-cases σ (get_new_entry et ne) outer ne.tvar) [
      | inl (e, h, s) ↦ rw s (rw h at at_x)
      | inr (h, s) ↦ absurd (omega (arith, rw h at at_x))
    ]

read_outside :
    (σ : ℕ → ℕ) (et : Trec) (outer : List Trec) (x : ℕ) (e : TrecEntry)
    → find_entry x (entries et) ≡ none
    → find_outside x outer ≡ some e
    → (stm_read_tvar σ et outer x).0 ≡ e.new_value
unfolding stm_read_tvar get_entry_for
read_outside σ et outer x e n s = rw (n, s) refl

-- A nested transaction `et`, without an entry for `x`, runs inside transactions that have one, `e`,
-- and starts a nested transaction that reads `x` and aborts. A read of `x` before this gives
-- `e.new_value`, which the enclosing transaction has written; after it, `e.expected_value`, the value
-- from before the write.
pub abort-forgets :
    (σ : ℕ → ℕ) (w : World) (et : Trec) (outer : List Trec) (x : ℕ) (e : TrecEntry)
    → find_entry x (entries et) ≡ none
    → find_outside x outer ≡ some e
    → ((stm_read_tvar σ et outer x).0 ≡ e.new_value)
      × ((et' : Trec) × ((stm_abort_transaction w
              (stm_read_tvar σ (new_trec (et ∷ outer)) (et ∷ outer) x).1
              (et ∷ outer)).1
            ≡ et' ∷ outer)
          × ((stm_read_tvar σ et' outer x).0 ≡ e.expected_value))
unfolding stm_abort_transaction merge_reads merge_read_into
abort-forgets σ w et outer x e n s =
    let ne : TrecEntry = record {
      tvar = x;
      expected_value = e.expected_value;
      new_value = e.expected_value;
    } in
    (
      read_outside σ et outer x e n s,
      (
        get_new_entry et ne,
        rw (read_alone σ et outer x e n s, merge_reads, n) refl,
        read_added σ et outer ne n,
      ),
    )
