-- ===== src/RemoteWrite/Range/Cut.antt =====
-- What a part of the loop of `writeRange` (internal/metrics/remote_write.go) has sent, and how it grows
-- by a round.
use flotta_device_worker.Prelude.{
  ℕ, ◌≤◌, ◌<◌, ◌≡◌, ◌≢◌, refl, sym, ap, ◌∙◌, ◌⊎◌, inl, inr, String, Bool, true, false, List, [],
  ◌∷◌, ◌++◌, arith, length, Map,
}
use mathlib.Core.List.{append_assoc, append-nil}
use flotta_device_worker.RemoteWrite.Series.{Series, samples, samples_from}
use flotta_device_worker.RemoteWrite.Request.{Attempt, settled}
use flotta_device_worker.RemoteWrite.Range.{Cursor, reset, goes_on}
use flotta_device_worker.RemoteWrite.Range.Fill.{IsReady, pending}
use flotta_device_worker.RemoteWrite.Range.Round.{IsRounded}

-- All points of a list of requests, in order.
unfoldable pub carried : {P : Type 0} → List (List (Series P)) → List (Map String String × P)
carried [] = []
carried (request ∷ rest) = samples request ++ carried rest

-- Every request but the last carries exactly `limit` points, and the last at most that many.
abbrev pub IsPacked : {P : Type 0} → ℕ → List (List (Series P)) → Type 0
IsPacked limit [] = Unit
IsPacked limit (request ∷ []) = length (samples request) ≤ limit
IsPacked limit (request ∷ next ∷ rest) =
    (length (samples request) ≡ limit) × IsPacked limit (next ∷ rest)

-- What the loop did, from the cursor `c` and the history `log`: the requests it settled, and the
-- points that it did not deliver, which are none if it returns true.
pub record IsCut {P : Type 0} (limit : ℕ) (c : Cursor P) (log : List (Attempt P))
    (out : Bool × List (Attempt P)) : Type 0 where
  pub sent : List (List (Series P))
  pub left : List (Map String String × P)
  pub appended : settled out.1 ≡ settled log ++ sent
  pub in_order : carried sent ++ left ≡ pending c
  pub complete : out.0 ≡ true → left ≡ []
  pub packed : IsPacked limit sent
  pub idle : c.rest ≡ [] → sent ≡ []

IsPacked-cons :
    {P : Type 0} (limit : ℕ) (request : List (Series P)) (sent : List (List (Series P)))
    → length (samples request) ≤ limit
    → (length (samples request) ≡ limit) ⊎ (sent ≡ [])
    → IsPacked limit sent
    → IsPacked limit (request ∷ sent)
IsPacked-cons limit request [] h full packed = h
IsPacked-cons limit request (next ∷ rest) h (inl full) packed = (full, packed)
IsPacked-cons limit request (next ∷ rest) h (inr e) packed = cc

module _ {P : Type 0} (limit : ℕ) where
  -- The cursor after a round that does not send.
  pub IsReady-on :
      (c c' : Cursor P) → IsRounded limit c c' → goes_on limit c' ≡ true → IsReady limit c'
  unfolding goes_on
  IsReady-on c c' h on = record {
    inside = h.inside;
    room = ground arith;
    counted = h.counted;
    fresh = ground arith;
    ended = λ e. ground arith;
  }

  -- The cursor after a round that sends.
  pub IsReady-reset :
      (c c' : Cursor P) → 0 < limit → IsRounded limit c c' → IsReady limit (reset c')
  unfolding reset samples
  IsReady-reset c c' pos h = record {
    inside = h.inside;
    room = pos;
    counted = refl;
    fresh = inr refl;
    ended = λ e. refl;
  }

  full_or_last :
      (c' : Cursor P) → goes_on limit c' ≡ false → (c'.num_samples ≡ limit) ⊎ (c'.rest ≡ [])
  unfolding goes_on
  full_or_last c' h = ground arith

  pending-reset : (c' : Cursor P) → pending (reset c') ≡ samples_from c'.sample_index c'.rest
  unfolding reset samples
  pending-reset c' = refl

  -- A request is sent and settled, and the loop goes on.
  pub IsCut-sent :
      (c c' : Cursor P) (log log' : List (Attempt P)) (out : Bool × List (Attempt P))
      → IsRounded limit c c'
      → c.rest ≢ []
      → goes_on limit c' ≡ false
      → settled log' ≡ settled log ++ c'.request_series ∷ []
      → IsCut limit (reset c') log' out
      → IsCut limit c log out
  unfolding carried
  IsCut-sent c c' log log' out h busy full new cut = record {
    sent = c'.request_series ∷ cut.sent;
    left = cut.left;
    appended = cut.appended ∙ ap (λ t. t ++ cut.sent) new ∙ append_assoc (settled log) _ cut.sent;
    in_order =
        append_assoc (samples c'.request_series) (carried cut.sent) cut.left
        ∙ ap (λ t. samples c'.request_series ++ t) (cut.in_order ∙ pending-reset c')
        ∙ h.kept;
    complete = cut.complete;
    packed =
        IsPacked-cons limit c'.request_series cut.sent (omega (arith, h.counted, h.within))
          (elim (full_or_last c' full) [
            | inl n ↦ inl (h.counted ∙ n)
            | inr ended ↦ inr (cut.idle (unfold reset in ended))
          ])
          cut.packed;
    idle = λ e. absurd (busy e);
  }

  -- A round that does not send.
  pub IsCut-on :
      (c c' : Cursor P) (log : List (Attempt P)) (out : Bool × List (Attempt P))
      → IsRounded limit c c'
      → c.rest ≢ []
      → IsCut limit c' log out
      → IsCut limit c log out
  IsCut-on c c' log out h busy cut = record {
    sent = cut.sent;
    left = cut.left;
    appended = cut.appended;
    in_order = cut.in_order ∙ h.kept;
    complete = cut.complete;
    packed = cut.packed;
    idle = λ e. absurd (busy e);
  }

  -- A loop that stops here has sent nothing more.
  pub IsCut-stop :
      (c : Cursor P) (log log' : List (Attempt P)) (done : Bool)
      → settled log' ≡ settled log
      → (done ≡ true → pending c ≡ [])
      → IsCut limit c log (done, log')
  unfolding carried
  IsCut-stop c log log' done same over = record {
    sent = [];
    left = pending c;
    appended = same ∙ sym (append-nil _);
    in_order = refl;
    complete = over;
    packed = tt;
    idle = λ e. refl;
  }

  pub pending_over : (c : Cursor P) → IsReady limit c → c.rest ≡ [] → pending c ≡ []
  unfolding samples samples_from
  pending_over c ready e = ground (arith, ready.ended e)
