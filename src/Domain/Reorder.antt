-- ===== src/Domain/Reorder.antt =====
-- src/domain/services/reorder_window.rs.
pub mod Invariant
pub mod Delivery
pub mod Order
use magiclaw.Common.{ℕ, Bool, Option, some, List, [], ◌∷◌, ◌++◌, length, is_empty as list_is_empty}
use magiclaw.Common.Int.{ℤ, pos, max_ℤ, saturating_sub, u64_as_i64}
use magiclaw.Domain.Message.{Message, sort_key, late_arrival}
use magiclaw.Domain.Btree
use magiclaw.Domain.Btree.{values, range_to}

pub record ReorderWindow : Type 0 where
  pub buffer : List (ℤ × Message)
  pub window_ms : ℕ
  pub latest_arrival_ms : ℤ

unfoldable pub new : ℕ → ReorderWindow
new window_ms = record { buffer = []; window_ms = window_ms; latest_arrival_ms = pos 0 }

-- `latest_arrival_ms.saturating_sub(window_ms as i64)`.
unfoldable pub cutoff : ReorderWindow → ℤ
cutoff w = saturating_sub w.latest_arrival_ms (u64_as_i64 w.window_ms)

-- `for m in &ready { buffer.remove(&m.sort_key()) }`.
unfoldable pub remove_all : List Message → List (ℤ × Message) → List (ℤ × Message)
remove_all [] buffer = buffer
remove_all (m ∷ ready) buffer = remove_all ready (Btree.remove (sort_key m) buffer)

-- The window after an arrival, and the messages that it releases.
unfoldable pub insert : Message → ℤ → ReorderWindow → ReorderWindow × List Message
insert msg arrival_ms w =
    let w' : ReorderWindow = record w {
      buffer = Btree.insert (sort_key msg) msg w.buffer;
      latest_arrival_ms = max_ℤ w.latest_arrival_ms arrival_ms;
    } in
    let ready = values (range_to (cutoff w') w'.buffer) in
    (record w' { buffer = remove_all ready w'.buffer }, ready)

unfoldable pub handle_late : Message → ℕ → Message
handle_late msg delay_ms = record msg { audit_mark = some (late_arrival delay_ms) }

unfoldable pub flush_all : ReorderWindow → ReorderWindow × List Message
flush_all w = (record w { buffer = [] }, values w.buffer)

unfoldable pub len : ReorderWindow → ℕ
len w = length w.buffer

unfoldable pub is_empty : ReorderWindow → Bool
is_empty w = list_is_empty w.buffer
