-- ===== src/WsDeque/Valid.antt =====
-- rts/WSDeque.c: what holds between any two steps, and what the deque holds then.
use ghc_xapp_fix.Prelude.{ℕ, ◌+◌, ◌-◌, ◌%◌, ◌^◌, ◌≤◌, ◌<◌, ◌≡◌, some, List, length}
use ghc_xapp_fix.Prelude.Words.{IsMask}
use ghc_xapp_fix.WsDeque.{
  word, sub_word, add_word, WsDeque, Owner, popping, restoring, claiming, settling, checking,
  writing, publishing, Thief, got_top, got_bottom, got_element, System,
}
use ghc_xapp_fix.WsDeque.Words.{slots}
use ghc_xapp_fix.WsDeque.Spec.{replay, put_in}

-- The end of the deque, as the steps decide it: in `popWSDeque`, `bottom` runs ahead of it or behind.
abbrev pub end_of : WsDeque → Owner → ℕ
end_of q (popping b) = add_word b 1
end_of q (restoring t) = t
end_of q (claiming t removed) = t + 1
end_of q (settling t) = t + 1
end_of q _ = q.bottom

-- the element at index `i`
abbrev pub element : WsDeque → ℕ → ℕ
element q i = q.elements (i % q.size)

unfoldable pub contents : WsDeque → Owner → List ℕ
contents q p = slots (element q) q.top (end_of q p - q.top)

-- what the locals of the owner say about the deque
abbrev pub OwnerFits : WsDeque → Owner → Type 0
OwnerFits q (popping b) = (b < word) × (q.bottom ≡ b)
OwnerFits q (restoring t) = (q.top ≡ t) × (q.bottom ≡ sub_word t 1)
OwnerFits q (claiming t x) = (q.bottom ≡ t) × (t ≤ q.top) × (element q t ≡ x)
OwnerFits q (settling t) = (q.bottom ≡ t) × (q.top ≡ t + 1)
OwnerFits q (checking x b) = q.bottom ≡ b
OwnerFits q (writing x b) = (q.bottom ≡ b) × (b < q.top + q.modulo_size)
OwnerFits q (publishing x b) = (q.bottom ≡ b) × (b < q.top + q.modulo_size) × (element q b ≡ x)
OwnerFits q _ = Unit

-- what the locals of a thief say, with the deque ending at `e`
abbrev pub ThiefFits : WsDeque → ℕ → Thief → Type 0
ThiefFits q e (got_top t) = t ≤ q.top
ThiefFits q e (got_bottom t) = (t ≤ q.top) × (q.top ≡ t → t < e)
ThiefFits q e (got_element t x) = (t ≤ q.top) × (q.top ≡ t → (t < e) × (element q t ≡ x))
ThiefFits q e _ = Unit

-- the array
pub record IsShaped (q : WsDeque) : Type 0 where
  pub mask : IsMask q.modulo_size q.size
  pub modulo : q.modulo_size + 1 ≡ q.size
  pub small : q.size < 2 ^ 62

-- the deque and its owner
pub record IsValid (q : WsDeque) (p : Owner) : Type 0 where
  pub shape : IsShaped q
  pub ordered : q.top ≤ end_of q p
  pub room : end_of q p ≤ q.top + q.modulo_size
  pub bound : q.top_bound ≤ q.top
  pub owner : OwnerFits q p

pub record Inv (s : System) : Type 0 where
  pub valid : IsValid s.deque s.owner
  pub thieves : (i : ℕ) → ThiefFits s.deque (end_of s.deque s.owner) (s.thieves i)
  pub counted : end_of s.deque s.owner ≤ length (put_in s.log)
  pub history : replay s.deque.modulo_size s.log ≡ some (contents s.deque s.owner)
