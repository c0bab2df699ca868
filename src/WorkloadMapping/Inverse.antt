-- ===== src/WorkloadMapping/Inverse.antt =====
-- The two maps of internal/workload/mapping/mapping.go stay inverse to each other.
use flotta_device_worker.Prelude.{
  ◌≡◌, ◌≢◌, refl, ◌∙◌, sym, ◌⊎◌, inl, inr, none, some, String, Map, lookup, string_eq,
  lookup-insert, lookup-delete, arith, eq_iff, Option-cases, beq_refl,
}
use flotta_device_worker.WorkloadMapping.{
  Repository, Persist, not_marshalled, not_written, is_written, persist, add, remove, get_id,
  get_name,
}

-- A name has an id exactly if the id has that name, and no id is empty.
pub record IsInverse (ids names : Map String String) : Type 0 where
  pub there : (n i : String) → lookup n names ≡ some i → lookup i ids ≡ some n
  pub back : (n i : String) → lookup i ids ≡ some n → lookup n names ≡ some i
  pub no_empty_id : lookup "" ids ≡ none

-- A name that is new, with an id that is new; or the pair that is there already.
abbrev pub IsFresh : String → String → Repository → Type 0
IsFresh name id m =
    ((lookup name m.name_to_id ≡ none) ⊎ (lookup name m.name_to_id ≡ some id))
    × ((lookup id m.id_to_name ≡ none) ⊎ (lookup id m.id_to_name ≡ some name))
    × (id ≢ "")

persist-maps :
    (p : Persist) (m : Repository)
    → ((persist p m).1.id_to_name ≡ m.id_to_name) × ((persist p m).1.name_to_id ≡ m.name_to_id)
unfolding persist
persist-maps not_marshalled m = (refl, refl)
persist-maps (not_written left) m = (refl, refl)
persist-maps is_written m = (refl, refl)

-- Adding a fresh pair keeps the maps inverse, whether or not the file is written.
pub add-IsInverse :
    (p : Persist) (name id : String) (m : Repository)
    → IsFresh name id m
    → IsInverse m.id_to_name m.name_to_id
    → IsInverse (add p name id m).1.id_to_name (add p name id m).1.name_to_id
unfolding add
add-IsInverse p name id m fresh h =
    rw ((persist-maps p _).0, (persist-maps p _).1)
      (record {
        there = λ n i.
            simp lookup-insert (λ e. ground (arith, eq_iff name n, eq_iff id i, h.there n i));
        back =
            λ n i. simp lookup-insert (λ e. ground (arith, eq_iff name n, eq_iff id i, h.back n i));
        no_empty_id = simp lookup-insert (ground (arith, h.no_empty_id, eq_iff id ""));
      })

-- Removing a name, known or not, keeps them inverse too.
pub remove-IsInverse :
    (p : Persist) (name : String) (m : Repository)
    → IsInverse m.id_to_name m.name_to_id
    → IsInverse (remove p name m).1.id_to_name (remove p name m).1.name_to_id
unfolding remove
remove-IsInverse p name m h =
    rw ((persist-maps p _).0, (persist-maps p _).1)
      (elim (Option-cases (lookup name m.name_to_id)) [
        | inl e ↦ rw e (record {
          there = λ n i.
              simp lookup-delete
                (λ q. ground (arith, eq_iff name n, eq_iff "" i, h.there n i, h.no_empty_id));
          back = λ n i.
              simp lookup-delete (λ q. ground (arith, eq_iff name n, eq_iff "" i, h.back n i));
          no_empty_id = simp lookup-delete (ground (arith, h.no_empty_id));
        })
        | inr (old, e) ↦ rw e (record {
          there = λ n i. simp lookup-delete (λ q.
              ground
                (arith, eq_iff name n, eq_iff old i, h.there n i, h.there name old, h.back n i));
          back = λ n i.
              simp lookup-delete
                (λ q. ground (arith, eq_iff name n, eq_iff old i, h.back n i, h.there name old));
          no_empty_id = simp lookup-delete (ground (arith, h.no_empty_id));
        })
      ])

-- After a pair is added each of its two ends is found from the other, and no other name or id is
-- affected, also if the file could not be written.
pub get-add :
    (p : Persist) (name id : String) (m : Repository)
    → (get_id name (add p name id m).1 ≡ id)
      × (get_name id (add p name id m).1 ≡ name)
      × ((n : String) → n ≢ name → get_id n (add p name id m).1 ≡ get_id n m)
      × ((i : String) → i ≢ id → get_name i (add p name id m).1 ≡ get_name i m)
unfolding add get_id get_name
get-add p name id m =
    rw ((persist-maps p _).0, (persist-maps p _).1)
      (
        simp (lookup-insert, beq_refl),
        simp (lookup-insert, beq_refl),
        λ n ne. rw lookup-insert (ground (arith, eq_iff name n)),
        λ i ne. rw lookup-insert (ground (arith, eq_iff id i)),
      )

-- A removed name has no id, and the id that it had has no name; other names keep their ids.
pub get-remove :
    (p : Persist) (name : String) (m : Repository)
    → (get_id name (remove p name m).1 ≡ "")
      × (get_name (get_id name m) (remove p name m).1 ≡ "")
      × ((n : String) → n ≢ name → get_id n (remove p name m).1 ≡ get_id n m)
unfolding remove get_id get_name
get-remove p name m =
    rw ((persist-maps p _).0, (persist-maps p _).1)
      (
        simp (lookup-delete, beq_refl),
        simp (lookup-delete, beq_refl),
        λ n ne. rw lookup-delete (ground (arith, eq_iff name n)),
      )

-- Adding a name again under another id, with no removal between, leaves the old id behind: it still
-- yields the name, which no longer yields it.
pub add-add_stale :
    (p q : Persist) (name old new : String) (m : Repository)
    → old ≢ new
    → let m' = (add q name new (add p name old m).1).1 in
      (get_name old m' ≡ name) × (get_id name m' ≢ old)
add-add_stale p q name old new m ne =
    let (_, named, _, _) = get-add p name old m in
    let (now, _, _, kept) = get-add q name new (add p name old m).1 in
    (kept old ne ∙ named, λ e. ne (sym e ∙ now))
