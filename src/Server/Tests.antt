-- ===== src/Server/Tests.antt =====
-- The theorems on internal/server/deviceserver.go at concrete inputs.
use flotta_device_worker.Prelude.{ℕ, Option, none, [], ◌∷◌, refl}
use flotta_device_worker.Server.{
  Server, send, message_of, new_device_server, Steps, sends, takes, here, later,
}

-- No content is a message, and the content is what is left.
abbrev decode : ℕ → Option ℕ
decode c = none

abbrev left : ℕ → ℕ
left c = c

abbrev one_of_two : Server ℕ ℕ
one_of_two = record { sent = 1 ∷ 2 ∷ []; waiting = 1 ∷ []; updated = 2 ∷ [] }

one_of_two-Steps : Steps decode left new_device_server one_of_two
one_of_two-Steps =
    unfold send message_of in
    later (later (later here (sends 1)) (sends 2)) (takes (1 ∷ []) 2 [] refl)
