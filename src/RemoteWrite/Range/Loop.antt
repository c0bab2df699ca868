-- ===== src/RemoteWrite/Range/Loop.antt =====
-- The loop of `writeRange` (internal/metrics/remote_write.go): it ends, it sends the samples in order,
-- and it cuts them into full requests.
use flotta_device_worker.Prelude.{
  ℕ, zero, suc, ◌+◌, ◌<◌, ◌≡◌, ◌≢◌, refl, ap, ◌∙◌, ◌⊎◌, inl, inr, String, Bool, true, false, some,
  List, [], ◌∷◌, ◌++◌, arith, length, Bool-cases, Map,
}
use mathlib.Core.List.{append-nil}
use flotta_device_worker.RemoteWrite.Series.{Series, samples, samples_from-zero}
use flotta_device_worker.RemoteWrite.Request.{Attempt, Receiver, write_request, settled}
use flotta_device_worker.RemoteWrite.Request.Tries.{added, write_request-settled}
use flotta_device_worker.RemoteWrite.Range.{
  Cursor, fill, advance, reset, start, goes_on, write_loop, write_range,
}
use flotta_device_worker.RemoteWrite.Range.Cut.{
  carried, IsPacked, IsCut, IsReady-on, IsReady-reset, IsCut-sent, IsCut-on, IsCut-stop,
  pending_over,
}
use flotta_device_worker.RemoteWrite.Range.Fill.{IsReady, work}
use flotta_device_worker.RemoteWrite.Range.Round.{round-IsRounded, IsInside-zero}

List-cases : {A : Type 0} (l : List A) → (l ≡ []) ⊎ ((x : A) × (rest : List A) × (l ≡ x ∷ rest))
List-cases [] = inl refl
List-cases (x ∷ rest) = inr (x, rest, refl)

module _ {P B : Type 0} (r : Receiver P B) (limit fuel : ℕ) (c : Cursor P)
    (log : List (Attempt P)) where
  write_loop-end : c.rest ≡ [] → write_loop r limit (suc fuel) c log ≡ some (true, log)
  unfolding write_loop
  write_loop-end e = ground arith

  module _ (s : Series P) (later : List (Series P)) (e : c.rest ≡ s ∷ later) where
    write_loop-on :
        let c' = advance s later (fill limit s c) in
        goes_on limit c' ≡ true
        → write_loop r limit (suc fuel) c log ≡ write_loop r limit fuel c' log
    unfolding write_loop
    write_loop-on h = ground arith

    write_loop-sent :
        let c' = advance s later (fill limit s c) in
        goes_on limit c' ≡ false
        → (write_request r c'.request_series log).0 ≡ true
        → write_loop r limit (suc fuel) c log
          ≡ write_loop r limit fuel (reset c') (write_request r c'.request_series log).1
    unfolding write_loop
    write_loop-sent h w = ground arith

    write_loop-failed :
        let c' = advance s later (fill limit s c) in
        goes_on limit c' ≡ false
        → (write_request r c'.request_series log).0 ≡ false
        → write_loop r limit (suc fuel) c log
          ≡ some (false, (write_request r c'.request_series log).1)
    unfolding write_loop
    write_loop-failed h w = ground arith

-- The loop, from a cursor that is ready and with fuel for the work that is left.
abbrev Runs : {P B : Type 0} → Receiver P B → ℕ → ℕ → Cursor P → List (Attempt P) → Type 0
Runs {P} r limit fuel c log =
    (out : Bool × List (Attempt P)) × (write_loop r limit fuel c log ≡ some out)
    × IsCut limit c log out

module _ {P B : Type 0} (r : Receiver P B) (limit : ℕ) where
  -- One round, when the rounds after it run.
  round-Runs :
      (fuel : ℕ) (c : Cursor P) (log : List (Attempt P)) (s : Series P) (later : List (Series P))
      → ((c' : Cursor P) (log' : List (Attempt P))
          → IsReady limit c'
          → work c'.sample_index c'.rest < fuel
          → Runs r limit fuel c' log')
      → 0 < limit
      → IsReady limit c
      → work c.sample_index c.rest < suc fuel
      → c.rest ≡ s ∷ later
      → Runs r limit (suc fuel) c log
  round-Runs fuel c log s later rec pos ready enough e =
      let c' = advance s later (fill limit s c) in
      let h = round-IsRounded limit s later c e ready in
      let busy : c.rest ≢ [] = λ q. cc in
      let (ok, log') = write_request r c'.request_series log in
      let settles = write_request-settled r c'.request_series log in
      elim (Bool-cases (goes_on limit c')) [
        | inl on ↦
            let (out, runs, cut) =
              rec c' log (IsReady-on limit c c' h on) (omega (arith, h.less)) in
            (
              out,
              write_loop-on r limit fuel c log s later e on ∙ runs,
              IsCut-on limit c c' log out h busy cut,
            )
        | inr full ↦ elim (Bool-cases ok) [
          | inl accepted ↦
              let (out, runs, cut) =
                rec (reset c') log' (IsReady-reset limit c c' pos h)
                  (unfold reset in omega (arith, h.less)) in
              (
                out,
                write_loop-sent r limit fuel c log s later e full accepted ∙ runs,
                IsCut-sent limit c c' log log' out h busy full
                    (settles ∙ ap (λ b. settled log ++ added b c'.request_series) accepted) cut,
              )
          | inr failed ↦ (
            (false, log'),
            write_loop-failed r limit fuel c log s later e full failed,
            IsCut-stop limit c log log' false
                (settles ∙ ap (λ b. settled log ++ added b c'.request_series) failed ∙ append-nil _)
                (λ q. cc),
          )
        ]
      ]

  loop-Runs :
      (fuel : ℕ) (c : Cursor P) (log : List (Attempt P))
      → 0 < limit
      → IsReady limit c
      → work c.sample_index c.rest < fuel
      → Runs r limit fuel c log
  loop-Runs zero c log pos ready enough = absurd (omega arith)
  loop-Runs (suc fuel) c log pos ready enough = elim (List-cases c.rest) [
    | inl e ↦ (
      (true, log),
      write_loop-end r limit fuel c log e,
      IsCut-stop limit c log log true refl (λ _. pending_over limit c ready e),
    )
    | inr (s, later, e) ↦
        round-Runs fuel c log s later
          (λ c' log' ready' less. loop-Runs fuel c' log' pos ready' less) pos ready enough e
  ]

-- `writeRange` with room for at least one sample in a request returns. The requests that it settles
-- carry the samples of the series in order, each once, and all but the last exactly `limit` samples.
-- If it returns true, no sample is left out.
pub write_range_lem :
    {P B : Type 0} (r : Receiver P B) (limit fuel : ℕ) (series : List (Series P))
    (log : List (Attempt P))
    → 0 < limit
    → length series + length (samples series) < fuel
    → (out : Bool × List (Attempt P)) × (sent : List (List (Series P))) × (left : List
        (Map String String × P))
      × (write_range r limit fuel series log ≡ some out)
      × (settled out.1 ≡ settled log ++ sent)
      × (carried sent ++ left ≡ samples series)
      × (out.0 ≡ true → left ≡ [])
      × IsPacked limit sent
unfolding write_range samples
write_range_lem r limit fuel series log pos enough =
    let ready : IsReady limit (start series) = record {
      inside = IsInside-zero series;
      room = pos;
      counted = refl;
      fresh = inl refl;
      ended = λ e. refl;
    } in
    let (out, runs, cut) =
      loop-Runs r limit fuel (start series) log pos ready
        (omega (arith, enough, ap length (samples_from-zero series))) in
    (
      out,
      cut.sent,
      cut.left,
      runs,
      cut.appended,
      cut.in_order ∙ samples_from-zero series,
      cut.complete,
      cut.packed,
    )
