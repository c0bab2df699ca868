-- ===== src/Tsdb/Retention.antt =====
-- What the updates of internal/metrics/metrics.go leave of the database.
use flotta_device_worker.Prelude.{
  ◌+◌, ◌*◌, arith, ◌≡◌, refl, ◌∙◌, sym, ap, inl, inr, Bool, true, false, ◌&&◌, ◌||◌, if◌then◌else◌,
  Option, none, some, List, [], ◌∷◌, Bool-cases, nat_beq_iff,
}
use flotta_device_worker.Prelude.Int.{ℤ, pos, negsuc, int_beq}
use flotta_device_worker.Tsdb.{
  scale, millis_in_hour, Options, MetricsRetention, Tsdb, Err, not_closed, panics, close,
  wanted_options, same_options, reopen, update,
}

int_beq-eq : (a b : ℤ) → int_beq a b ≡ true → a ≡ b
int_beq-eq (pos m) (pos n) e = ap pos ((nat_beq_iff m n).0 e)
int_beq-eq (negsuc m) (negsuc n) e = ap negsuc ((nat_beq_iff m n).0 e)
int_beq-eq (pos m) (negsuc n) e = cc e
int_beq-eq (negsuc m) (pos n) e = cc e

both : (a b : Bool) → (a && b) ≡ true → (a ≡ true) × (b ≡ true)
both true b e = (refl, e)
both false b e = cc e

same_options-eq : (a b : Options) → same_options a b ≡ true → a ≡ b
same_options-eq a b e =
    let (p, q) = both _ _ e in
    let r = int_beq-eq a.retention_duration b.retention_duration p in
    let s = int_beq-eq a.max_bytes b.max_bytes q in
    λ i. record { retention_duration = r i; max_bytes = s i }

-- A number of hours in milliseconds, and one of MiB in bytes.
abbrev pub hours_in_millis : ℤ → ℤ
hours_in_millis (pos n) = pos (3600000 * n)
hours_in_millis (negsuc n) = negsuc (3600000 * n + 3599999)

abbrev pub mib_in_bytes : ℤ → ℤ
mib_in_bytes (pos n) = pos (1048576 * n)
mib_in_bytes (negsuc n) = negsuc (1048576 * n + 1048575)

-- The options that a configuration asks for: a week and no bound on the bytes if it names none.
abbrev pub asked : Option MetricsRetention → Options
asked none = record { retention_duration = pos 604800000; max_bytes = pos 0 }
asked (some r) = record {
  retention_duration = hours_in_millis r.max_hours;
  max_bytes = mib_in_bytes r.max_mib;
}

scale-hours : (z : ℤ) → scale millis_in_hour z ≡ hours_in_millis z
scale-hours (pos n) = ap pos (omega arith)
scale-hours (negsuc n) = ap negsuc (omega arith)

scale-mib : (z : ℤ) → scale 1024 (scale 1024 z) ≡ mib_in_bytes z
scale-mib (pos n) = ap pos (omega arith)
scale-mib (negsuc n) = ap negsuc (omega arith)

wanted_options_lem : (config : Option MetricsRetention) → wanted_options config ≡ asked config
unfolding wanted_options
wanted_options_lem none = refl
wanted_options_lem (some r) = λ i. record {
  retention_duration = scale-hours r.max_hours i;
  max_bytes = scale-mib r.max_mib i;
}

-- After no failure the database is open with the given options, which count as applied, after one it is
-- closed.
abbrev pub IsLeft : Bool → Options → Tsdb → Type 0
IsLeft true options t = t.db ≡ none
IsLeft false options t = (t.db ≡ some options) × (t.applied_options ≡ options)

abbrev pub is_error : Option Err → Bool
is_error none = false
is_error (some _) = true

-- What an update promises of an open database.
abbrev pub Updated : Option MetricsRetention → Option Err → Tsdb → Type 0
Updated config none t =
    (t.applied_options ≡ wanted_options config) × (t.db ≡ some (wanted_options config))
Updated config (some e) t = t.db ≡ none

close_open :
    (closes : Bool) (t : Tsdb) (o : Options)
    → t.db ≡ some o
    → close closes t ≡ (if closes then none else some not_closed, record t { db = none })
unfolding close
close_open closes t o h = rw h refl

close-closed : (closes : Bool) (t : Tsdb) → t.db ≡ none → close closes t ≡ (some panics, t)
unfolding close
close-closed closes t h = rw h refl

reopen-Updated :
    (closes opens : Bool) (config : Option MetricsRetention) (t : Tsdb)
    → let (failed, t') =
        reopen
          (if closes then none else some not_closed)
          opens
          (wanted_options config)
          (record t { db = none }) in
      Updated config failed t'
reopen-Updated true true config t = (refl, refl)
reopen-Updated true false config t = refl
reopen-Updated false opens config t = refl

-- An update of an open database either succeeds, and then it is open with the retention that the
-- configuration asks for, or fails, and then it is closed.
pub update-Updated :
    (closes opens : Bool) (config : Option MetricsRetention) (t : Tsdb)
    → t.db ≡ some t.applied_options
    → let (failed, t') = update closes opens config t in Updated config failed t'
unfolding update
update-Updated closes opens config t h =
    elim (Bool-cases (same_options (wanted_options config) t.applied_options)) [
      | inl e ↦
          rw e (sym (same_options-eq _ _ e), h ∙ ap (λ o. some o) (sym (same_options-eq _ _ e)))
      | inr e ↦
          rw (e, close_open closes t t.applied_options h) (reopen-Updated closes opens config t)
    ]

-- What the update of a closed database answers: it panics, unless the options count as applied.
pub update-closed :
    (closes opens : Bool) (config : Option MetricsRetention) (t : Tsdb)
    → t.db ≡ none
    → (update closes opens config t).1 ≡ t
unfolding update
update-closed closes opens config t h =
    elim (Bool-cases (same_options (wanted_options config) t.applied_options)) [
      | inl e ↦ rw e refl
      | inr e ↦ rw (e, close-closed closes t h) refl
    ]

-- An update with what the system answers to it.
pub record Attempt : Type 0 where
  pub closes : Bool
  pub opens : Bool
  pub config : Option MetricsRetention

-- One update after the other, and whether one failed.
unfoldable pub update_all : List Attempt → Bool → Tsdb → Bool × Tsdb
update_all [] failed t = (failed, t)
update_all (a ∷ rest) failed t =
    let (e, t') = update a.closes a.opens a.config t in update_all rest (failed || is_error e) t'

-- What the last configuration asks for, or the options before if there was none.
abbrev pub asked_last : List Attempt → Options → Options
asked_last [] options = options
asked_last (a ∷ rest) options = asked_last rest (asked a.config)

Updated-IsLeft :
    (config : Option MetricsRetention) (e : Option Err) (t : Tsdb)
    → Updated config e t
    → IsLeft (is_error e) (asked config) t
Updated-IsLeft config none t h =
    let w = wanted_options_lem config in (h.1 ∙ ap (λ o. some o) w, h.0 ∙ w)
Updated-IsLeft config (some e) t h = h

update-IsLeft :
    (a : Attempt) (failed : Bool) (options : Options) (t : Tsdb)
    → IsLeft failed options t
    → let (e, t') = update a.closes a.opens a.config t in
      IsLeft (failed || is_error e) (asked a.config) t'
update-IsLeft a true options t h = ap (λ s. s.db) (update-closed a.closes a.opens a.config t h) ∙ h
update-IsLeft a false options t h =
    Updated-IsLeft a.config _ _
      (update-Updated a.closes a.opens a.config t (h.0 ∙ ap (λ o. some o) (sym h.1)))

-- Over any updates of a database that is open with the options that count as applied: if none failed it
-- is open with what the last configuration asks for (its hours in milliseconds and its MiB in bytes, or a
-- week without a bound on the bytes), and once one failed it is closed, whatever the updates after it.
pub update_all-IsLeft :
    (attempts : List Attempt) (failed : Bool) (options : Options) (t : Tsdb)
    → IsLeft failed options t
    → let (failed', t') = update_all attempts failed t in
      IsLeft failed' (asked_last attempts options) t'
unfolding update_all
update_all-IsLeft [] failed options t h = h
update_all-IsLeft (a ∷ rest) failed options t h =
    update_all-IsLeft rest _ (asked a.config) _ (update-IsLeft a failed options t h)
