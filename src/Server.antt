-- ===== src/Server.antt =====
-- internal/server/deviceserver.go: messages come in by `Send`, each in a goroutine of its own, and one
-- goroutine hands them to the configuration manager.
pub mod Order
mod Tests
use flotta_device_worker.Prelude.{◌≡◌, Option, none, some, List, [], ◌∷◌, ◌++◌}

-- The contents that were sent, the messages whose goroutine waits at the channel, and those that were
-- handed to `Update` of the configuration manager, in this order.
pub record Server (C M : Type 0) : Type 0 where
  pub sent : List C
  pub waiting : List M
  pub updated : List M

-- `NewDeviceServer`
abbrev pub new_device_server : {C M : Type 0} → Server C M
new_device_server = record { sent = []; waiting = []; updated = [] }

-- A message that cannot be decoded is handed on as what json.Unmarshal left of an empty one.
unfoldable pub message_of : {C M : Type 0} → (C → Option M) → (C → M) → C → M
message_of decode left c = elim (decode c) [ none ↦ left c | some m ↦ m ]

module _ {C M : Type 0} (decode : C → Option M) (left : C → M) where
  -- `Send`, up to the channel.
  unfoldable pub send : C → Server C M → Server C M
  unfolding message_of
  send c s = record s {
    sent = s.sent ++ c ∷ [];
    waiting = s.waiting ++ message_of decode left c ∷ [];
  }

  -- The channel has no buffer: the goroutine that updates may take from any that waits.
  pub data Step : Server C M → Server C M → Type 0 where
    sends : {s : Server C M} (c : C) → Step s (send c s)
    takes :
        {s : Server C M} (before : List M) (m : M) (after : List M)
        → s.waiting ≡ before ++ m ∷ after
        → Step s (record s { waiting = before ++ after; updated = s.updated ++ m ∷ [] })

  pub data Steps : Server C M → Server C M → Type 0 where
    here : {s : Server C M} → Steps s s
    later : {s t u : Server C M} → Steps s t → Step t u → Steps s u
