-- ===== src/PlaybookEvents/Lines.antt =====
-- The lines of the message that internal/ansible/dispatcher/dispatcher_events.go makes of the events.
use flotta_device_worker.Prelude.{
  ℕ, ◌≡◌, ◌≢◌, refl, ◌∙◌, sym, ap, Option, none, some, List, [], ◌∷◌, ◌++◌, map, All, if◌then◌else◌,
  nat_beq, arith,
}
use flotta_device_worker.PlaybookEvents.{Event}
use flotta_device_worker.PlaybookEvents.Message.{joined, create_message}

abbrev pub to_first : ℕ → List (List ℕ) → List (List ℕ)
to_first c [] = (c ∷ []) ∷ []
to_first c (l ∷ ls) = (c ∷ l) ∷ ls

-- The lines of a text, between its line feeds.
unfoldable pub lines : List ℕ → List (List ℕ)
lines [] = [] ∷ []
lines (c ∷ cs) = let rest = lines cs in if nat_beq c b'\n' then [] ∷ rest else to_first c rest

abbrev pub IsLine : List ℕ → Type 0
IsLine = All (λ c. c ≢ b'\n')

lines_of_line : (l : List ℕ) → IsLine l → lines l ≡ l ∷ []
unfolding lines
lines_of_line [] h = refl
lines_of_line (c ∷ l) h = ground (arith, h.0, lines_of_line l h.1)

lines_of_append : (l rest : List ℕ) → IsLine l → lines (l ++ b'\n' ∷ rest) ≡ l ∷ lines rest
unfolding lines
lines_of_append [] rest h = refl
lines_of_append (c ∷ l) rest h = ground (arith, h.0, lines_of_append l rest h.1)

module _ (marshal : Event → Option (List ℕ)) where
  -- What is promised of the content: its lines are the JSON of the events; or there is none since that
  -- of some event cannot be made.
  abbrev pub Outcome : List Event → Option (List ℕ) → Type 0
  Outcome events none = ¬ All (λ e. marshal e ≢ none) events
  Outcome events (some content) = map some (lines content) ≡ map marshal events

  module _ (no_newline : (e : Event) (b : List ℕ) → marshal e ≡ some b → IsLine b) where
    one-Outcome : (e : Event) (m : Option (List ℕ)) → marshal e ≡ m → Outcome (e ∷ []) m
    one-Outcome e none fails = λ all. all.0 fails
    one-Outcome e (some b) made =
        ap (λ l. map some l) (lines_of_line b (no_newline e b made)) ∙ ap (λ m. m ∷ []) (sym made)

    joined-Outcome :
        (e : Event) (m : Option (List ℕ)) (events : List Event) (left : Option (List ℕ))
        → marshal e ≡ m
        → Outcome events left
        → Outcome (e ∷ events) (joined m left)
    joined-Outcome e none events left fails h = λ all. all.0 fails
    joined-Outcome e (some b) events none made h = λ all. h all.1
    joined-Outcome e (some b) events (some rest) made h =
        ap (λ l. map some l) (lines_of_append b rest (no_newline e b made))
        ∙ ap (λ m. m ∷ map some (lines rest)) (sym made)
        ∙ ap (λ l. marshal e ∷ l) h

    -- If no JSON has a line feed in it, the lines of the message are the JSON of the events, one event
    -- to a line in their order; and without a message some event has no JSON. There is an event.
    pub create_message-lines :
        (e : Event) (rest : List Event) → Outcome (e ∷ rest) (create_message marshal (e ∷ rest))
    unfolding create_message
    create_message-lines e [] = one-Outcome e (marshal e) refl
    create_message-lines e (next ∷ rest) =
        joined-Outcome e (marshal e) (next ∷ rest) _ refl (create_message-lines next rest)
