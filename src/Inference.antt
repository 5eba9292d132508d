-- ===== src/Inference.antt =====
-- app/inference/runner.py: `CircuitBreaker`, the health of the engine. The clock is monotonic and
-- counts milliseconds; `open_until` is 0 where the breaker was never open.
pub mod Breaker
pub mod Faces
pub mod Largest
pub mod Results
pub mod Payloads
pub mod Queue
pub mod Capacity
pub mod Workers
pub mod Running
pub mod Served
use emoselfie_be.Prelude.{
  ℕ, ◌+◌, ◌-◌, Bool, true, false, not, ◌&&◌, List, [], ◌∷◌, ◌++◌, ltb, leb, ◌==◌, if◌then◌else◌,
  length, keep,
}

-- `history` holds the oldest outcome first.
pub record CircuitBreaker : Type 0 where
  pub history : List Bool
  pub open_until : ℕ
  pub cooldown : ℕ

abbrev pub maxlen : ℕ
maxlen = 20

unfoldable pub is_open : CircuitBreaker → ℕ → Bool
is_open b now = ltb now b.open_until

abbrev pub drop_first : List Bool → List Bool
drop_first [] = []
drop_first (x ∷ xs) = xs

-- `deque.append` with a `maxlen`
unfoldable pub push : List Bool → Bool → List Bool
push history success =
    if leb maxlen (length history)
    then drop_first history ++ success ∷ []
    else history ++ success ∷ []

abbrev pub failures : List Bool → ℕ
failures history = length (keep not history)

-- The history to which an outcome is added: a breaker that was open starts anew.
unfoldable pub renewed : CircuitBreaker → CircuitBreaker
renewed b = if b.open_until == 0 then b else record b { history = []; open_until = 0 }

-- The end of `record`: the history is full, and enough of it failed, or not.
unfoldable pub conclude : CircuitBreaker → List Bool → ℕ → CircuitBreaker
conclude b history now =
    if (length history == maxlen) && leb 16 (failures history)
    then record b { history = history; open_until = now + b.cooldown }
    else record b { history = history }

unfoldable pub record_outcome : CircuitBreaker → Bool → ℕ → CircuitBreaker
unfolding is_open push renewed conclude
record_outcome b success now =
    if is_open b now then b else conclude (renewed b) (push (renewed b).history success) now
