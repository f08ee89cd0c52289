-- ===== src/Stable/Table.antt =====
-- rts/Stable.c: what it needs of the hash table from addresses to stable names (rts/Hash.c).
use ghc_xapp_fix.Prelude.{ℕ, ◌≡◌, ◌≢◌, Option, some, ◌==◌, if◌then◌else◌}

-- A key is an address, and 0 stands for the data of a key that is absent. `remove` is a removal by
-- the key alone, whose result is thrown away.
pub record AddressTable : Type 1 where
  pub Table : Type 0
  pub IsValid : Table → Type 0
  pub view : Table → ℕ → ℕ
  pub alloc : Table
  pub lookup : Table → ℕ → Option ℕ
  pub insert : Table → ℕ → ℕ → Option Table
  pub remove : Table → ℕ → Option Table
  pub free : Table → Option (Unit {0})
  pub alloc_valid : IsValid alloc
  pub alloc_view : (q : ℕ) → view alloc q ≡ 0
  pub lookup_view : (t : Table) (q : ℕ) → IsValid t → lookup t q ≡ some (view t q)
  pub insert_view :
      (t : Table) (key value : ℕ)
      → IsValid t
      → view t key ≡ 0
      → value ≢ 0
      → (t' : Table) × (insert t key value ≡ some t')
        × IsValid t'
        × ((q : ℕ) → view t' q ≡ (if key == q then value else view t q))
  pub remove_view :
      (t : Table) (key : ℕ)
      → IsValid t
      → (t' : Table) × (remove t key ≡ some t')
        × IsValid t'
        × ((q : ℕ) → view t' q ≡ (if key == q then 0 else view t q))
  pub free_valid : (t : Table) → IsValid t → free t ≡ some tt
