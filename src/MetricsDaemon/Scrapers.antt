-- ===== src/MetricsDaemon/Scrapers.antt =====
-- internal/metrics/scraper.go: where the samples come from, over HTTP and from the program's own counters.
use flotta_device_worker.Prelude.{
  ℕ, ◌≡◌, refl, ◌∙◌, sym, ap, Bool, not, Option, none, some, String, List, [], ◌∷◌, ◌++◌, map, Map,
  insert, if◌then◌else◌, nat_beq, string_eq,
}
use mathlib.Core.List.{append_assoc, append-nil}
use flotta_device_worker.MetricsDaemon.Collect.{Sample, metric_name_label}

-- What `Decode` answers before the end of the body: samples, or an error.
pub data Decoded (P : Type 0) : Type 0 where
  batch : List (Sample P) → Decoded P
  broken : Decoded P

-- What a server replies to the request: an error; or a status, whether the body is said to be zipped and
-- can be unzipped, and what can be decoded of it.
pub data Reply (P : Type 0) : Type 0 where
  no_reply : Reply P
  replies : (status : ℕ) → (is_zipped unzips : Bool) → List (Decoded P) → Reply P

-- A counter that is gathered: its labels and its value; and a family of counters.
pub record Item (P : Type 0) : Type 0 where
  pub labels : List (String × String)
  pub value : P

pub record Family (P : Type 0) : Type 0 where
  pub name : String
  pub items : List (Item P)

-- The labels of a counter are written into the map of its family.
unfoldable pub set_labels : List (String × String) → Map String String → Map String String
set_labels [] metric = metric
set_labels ((name, value) ∷ rest) metric = set_labels rest (insert name value metric)

set_labels-append :
    (a b : List (String × String)) (m : Map String String)
    → set_labels (a ++ b) m ≡ set_labels b (set_labels a m)
unfolding set_labels
set_labels-append [] b m = refl
set_labels-append ((name, value) ∷ a) b m = set_labels-append a b (insert name value m)

module _ {P : Type 0} where
  -- The loop of `decodeSamples`.
  unfoldable pub decode_from : List (Sample P) → List (Decoded P) → Option (List (Sample P))
  decode_from all_samples [] = some all_samples
  decode_from all_samples (broken ∷ rest) = none
  decode_from all_samples (batch samples ∷ rest) = decode_from (all_samples ++ samples) rest

  unfoldable pub decode_samples : List (Decoded P) → Option (List (Sample P))
  unfolding decode_from
  decode_samples = decode_from []

  -- `HTTPScraper.Scrape`
  unfoldable pub scrape_http : Reply P → Option (List (Sample P))
  unfolding decode_samples
  scrape_http no_reply = none
  scrape_http (replies status is_zipped unzips body) =
      if not (nat_beq status 200)
      then none
      else if is_zipped
      then (if unzips then decode_samples body else none)
      else decode_samples body

  -- The loop over the counters of a family: there is one map of labels, which each counter writes to and
  -- each sample refers to.
  unfoldable pub items_loop :
      List (Item P) → Map String String → List P → Map String String × List P
  unfolding set_labels
  items_loop [] metric values = (metric, values)
  items_loop (i ∷ rest) metric values =
      items_loop rest (set_labels i.labels metric) (values ++ i.value ∷ [])

  abbrev pub with_metric : Map String String → P → Sample P
  with_metric metric v = record { metric = metric; rest = v }

  unfoldable pub scrape_family : Family P → List (Sample P)
  unfolding items_loop
  scrape_family f =
      let done = items_loop f.items ((metric_name_label, f.name) ∷ []) [] in
      map (with_metric done.0) done.1

  unfoldable pub scrape_families : List (Family P) → List (Sample P)
  unfolding scrape_family
  scrape_families [] = []
  scrape_families (f ∷ rest) = scrape_family f ++ scrape_families rest

  -- `ObjectScraper.Scrape`, for what the gatherer gives.
  unfoldable pub scrape_object : Option (List (Family P)) → Option (List (Sample P))
  unfolding scrape_families
  scrape_object none = none
  scrape_object (some families) = some (scrape_families families)

  -- All samples of a body, if it is not broken anywhere.
  abbrev pub add_batch : List (Sample P) → Option (List (Sample P)) → Option (List (Sample P))
  add_batch samples none = none
  add_batch samples (some rest) = some (samples ++ rest)

  unfoldable pub all_batches : List (Decoded P) → Option (List (Sample P))
  all_batches [] = some []
  all_batches (broken ∷ rest) = none
  all_batches (batch samples ∷ rest) = add_batch samples (all_batches rest)

  add_batch-add_batch :
      (a b : List (Sample P)) (o : Option (List (Sample P)))
      → add_batch (a ++ b) o ≡ add_batch a (add_batch b o)
  add_batch-add_batch a b none = refl
  add_batch-add_batch a b (some c) = ap (λ x. some x) (append_assoc a b c)

  add_batch_nil : (o : Option (List (Sample P))) → add_batch [] o ≡ o
  add_batch_nil none = refl
  add_batch_nil (some c) = refl

  decode_from_lem :
      (all_samples : List (Sample P)) (body : List (Decoded P))
      → decode_from all_samples body ≡ add_batch all_samples (all_batches body)
  unfolding decode_from all_batches
  decode_from_lem all_samples [] = ap (λ x. some x) (sym (append-nil all_samples))
  decode_from_lem all_samples (broken ∷ rest) = refl
  decode_from_lem all_samples (batch samples ∷ rest) =
      decode_from_lem (all_samples ++ samples) rest
      ∙ add_batch-add_batch all_samples samples (all_batches rest)

  -- A body that breaks off gives no samples at all, also not those before.
  pub decode_samples_lem : (body : List (Decoded P)) → decode_samples body ≡ all_batches body
  unfolding decode_samples
  decode_samples_lem body = decode_from_lem [] body ∙ add_batch_nil _

  -- The labels of all counters of a family, in order.
  unfoldable pub all_labels : List (Item P) → List (String × String)
  all_labels [] = []
  all_labels (i ∷ rest) = i.labels ++ all_labels rest

  items_loop_lem :
      (items : List (Item P)) (m : Map String String) (values : List P)
      → items_loop items m values
        ≡ (set_labels (all_labels items) m, values ++ map (λ i. i.value) items)
  unfolding items_loop all_labels set_labels
  items_loop_lem [] m values = ap (λ x. (m, x)) (sym (append-nil values))
  items_loop_lem (i ∷ rest) m values =
      items_loop_lem rest (set_labels i.labels m) (values ++ i.value ∷ [])
      ∙ rw
          (
            set_labels-append i.labels (all_labels rest) m,
            append_assoc values (i.value ∷ []) (map (λ i. i.value) rest),
          )
          refl

  -- Each counter of a family has its sample with its value, in order; but all these samples have the same
  -- labels, those of all counters of the family, where the last one's values stand.
  pub scrape_family_lem :
      (f : Family P)
      → scrape_family f
        ≡ map
            (with_metric (set_labels (all_labels f.items) ((metric_name_label, f.name) ∷ [])))
            (map (λ i. i.value) f.items)
  unfolding scrape_family
  scrape_family_lem f = rw (items_loop_lem f.items ((metric_name_label, f.name) ∷ []) []) refl
