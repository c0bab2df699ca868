-- ===== src/Main/Stops.antt =====
-- What the graceful stop of cmd/device-worker/main.go asks to stop.
use flotta_device_worker.Prelude.{
  ◌≡◌, refl, ap, Bool, true, ◌&&◌, List, [], ◌∷◌, ◌++◌, Bool-cases, inl, inr,
}
use flotta_device_worker.Main.{Component, stopped_first, stop_all, graceful_reboot}

abbrev pub all_stop : (Component → Bool) → List Component → Bool
all_stop stops [] = true
all_stop stops (c ∷ rest) = stops c && all_stop stops rest

-- The parts that were asked are the first ones, and all of them exactly if the completion is told.
abbrev pub AsksInOrder : (Component → Bool) → List Component → List Component × Bool → Type 0
AsksInOrder stops all (asked, told) =
    (told ≡ all_stop stops all)
    × (left : List Component) × (asked ++ left ≡ all)
    × (told ≡ true → left ≡ [])

stop_all-AsksInOrder :
    (stops : Component → Bool) (all : List Component) → AsksInOrder stops all (stop_all stops all)
unfolding stop_all
stop_all-AsksInOrder stops [] = (refl, [], refl, λ e. refl)
stop_all-AsksInOrder stops (c ∷ rest) =
    let (told, left, order, done) = stop_all-AsksInOrder stops rest in
    elim (Bool-cases (stops c)) [
      | inl e ↦ rw e (told, left, ap (λ l. c ∷ l) order, done)
      | inr e ↦ rw e (refl, rest, refl, λ x. cc x)
    ]

-- The parts are asked to stop in their order, up to the first that does not, and the completion is told
-- exactly if all stop.
pub graceful_reboot-AsksInOrder :
    (stops : Component → Bool) → AsksInOrder stops stopped_first (graceful_reboot stops)
unfolding graceful_reboot
graceful_reboot-AsksInOrder stops = stop_all-AsksInOrder stops stopped_first
