-- ===== src/Delivery.antt =====
-- Who gets what: the calls of `Write` that a broadcast makes (src/ChatServer.cpp, src/ChatManager.cpp).
use thunder_chat.Prelude.{ℕ, Option, some, List, [], ◌∷◌, ◌≡◌}

-- A call of `Write` with the descriptor and the bytes.
abbrev pub Sent : Type 0
Sent = ℕ × List ℕ

-- The same bytes are sent once to each peer that `gets` them, in the order of the list, and to no other;
-- `socket` is the descriptor of a peer, where it has one.
pub data Delivered {A : Type 0} (socket : A → Option ℕ) (bytes : List ℕ) (gets : A → Type 0)
    : List A → List Sent → Type 0 where
  no_more : Delivered socket bytes gets [] []
  passed_over :
      (peer : A) (peers : List A) (sents : List Sent)
      → (gets peer → ⊥)
      → Delivered socket bytes gets peers sents
      → Delivered socket bytes gets (peer ∷ peers) sents
  sent_to :
      (peer : A) (peers : List A) (sents : List Sent) (fd : ℕ)
      → gets peer
      → socket peer ≡ some fd
      → Delivered socket bytes gets peers sents
      → Delivered socket bytes gets (peer ∷ peers) ((fd, bytes) ∷ sents)
