-- ===== src/Feed.antt =====
-- What the programs that make up messages share: src/stream_server.cpp, src/main.cpp and
-- src/mock_exchange.cpp keep a list of orders that may still be cancelled, and send one message per
-- round of a loop.
pub mod Fields
pub mod Mock
pub mod Live
pub mod Stream
use quant_feed_handler.Base.{ℕ, ◌-◌, List, [], ◌∷◌, Bool, true, false, length, get_or, set, take}
use quant_feed_handler.Protocol.{WireMessage}

-- `empty()` of a vector.
abbrev pub is_empty {ℓ} : {A : Type ℓ} → List A → Bool
is_empty [] = true
is_empty (x ∷ xs) = false

-- `activeOrders[idx] = activeOrders.back(); activeOrders.pop_back();`
unfoldable pub drop_order : List ℕ → ℕ → List ℕ
drop_order active i =
    let last = length active - 1 in take last (set active i (get_or active last 0))

-- The loop: a round takes its draws and the state, and gives a message and the next state.
module _ {D S : Type 0} (round : D → S → WireMessage × S) where
  unfoldable pub stream : List D → S → List WireMessage
  stream [] s = []
  stream (d ∷ ds) s = (round d s).0 ∷ stream ds (round d s).1
