-- ===== src/RemoteWrite/Window/Skip.antt =====
-- `skipEmptyRanges` of internal/metrics/remote_write.go never steps over an instant with data.
use flotta_device_worker.Prelude.{
  ℕ, ◌≤◌, ◌<◌, ◌≡◌, ◌≢◌, inl, inr, List, [], ◌∷◌, ltb, Bool-cases, All, arith,
}
use native.Mathlib.Decide.{ℕ_discrete}
use flotta_device_worker.RemoteWrite.Window.{Block, Tsdb, skip_blocks, skip_empty_ranges}

-- An instant of a block.
abbrev pub InBlock : ℕ → Block → Type 0
InBlock x b = (b.min_time ≤ x) × (x ≤ b.max_time)

-- Blocks in ascending order that do not overlap, as `tsdb.DB.Blocks` returns them.
abbrev pub IsAscending : List Block → Type 0
IsAscending [] = Unit
IsAscending (b ∷ rest) =
    (b.min_time ≤ b.max_time) × All (λ c. b.max_time < c.min_time) rest × IsAscending rest

past_block :
    (t : ℕ) (rest : List Block) (m : ℕ)
    → All (λ c. m < c.min_time) rest
    → (x : ℕ) → x ≤ m
    → All (λ c. ¬ (InBlock x c)) rest
past_block t [] m h x l = tt
past_block t (c ∷ rest) m h x l = (λ p. omega (arith, h.0), past_block t rest m h.1 x l)

-- If the loop finds a block, it finds the first instant from `t` on that a block holds.
skip_blocks-gap :
    (t : ℕ) (bs : List Block)
    → IsAscending bs
    → skip_blocks t bs ≢ 0
    → (t ≤ skip_blocks t bs)
      × ((x : ℕ) → t ≤ x → x < skip_blocks t bs → All (λ b. ¬ (InBlock x b)) bs)
unfolding skip_blocks
skip_blocks-gap t [] h found = absurd (ground arith)
skip_blocks-gap t (b ∷ rest) h found = elim (Bool-cases (ltb b.max_time t)) [
  | inl ahead ↦
      let ih = skip_blocks-gap t rest h.2 (ground arith) in
      (ground (arith, ih), λ x l u. (λ p. ground arith, ih.1 x l (ground arith)))
  | inr near ↦ (
    ground arith,
    λ x l u. (λ p. ground (arith, p), past_block t rest b.max_time h.1 x (ground arith)),
  )
]

skip_blocks-none :
    (t : ℕ) (bs : List Block)
    → skip_blocks t bs ≡ 0
    → 0 < t
    → (x : ℕ) → t ≤ x
    → All (λ b. ¬ (InBlock x b)) bs
unfolding skip_blocks
skip_blocks-none t [] found pos x l = tt
skip_blocks-none t (b ∷ rest) found pos x l =
    (ground arith, skip_blocks-none t rest (ground arith) pos x l)

skip_blocks-le :
    (t head : ℕ) (bs : List Block)
    → IsAscending bs
    → All (λ b. b.max_time ≤ head) bs
    → skip_blocks t bs ≤ head
unfolding skip_blocks
skip_blocks-le t head [] asc below = omega arith
skip_blocks-le t head (b ∷ rest) asc below =
    ground (arith, skip_blocks-le t head rest asc.2 below.1)

-- From an instant `t` on, no instant before `skipEmptyRanges(t)` lies in a block, nor in the head that
-- follows the blocks: the blocks being in ascending order, nothing that the TSDB holds is skipped, and
-- the result is never before `t`.
pub skip_empty_ranges-gap :
    {P : Type 0} (db : Tsdb P) (t : ℕ)
    → 0 < t
    → IsAscending db.blocks
    → All (λ b. b.max_time ≤ db.head_min_time) db.blocks
    → (t ≤ skip_empty_ranges db t)
      × ((x : ℕ)
          → t ≤ x
          → x < skip_empty_ranges db t
          → All (λ b. ¬ (InBlock x b)) db.blocks × (x < db.head_min_time))
unfolding skip_empty_ranges
skip_empty_ranges-gap db t pos asc below = elim (ℕ_discrete (skip_blocks t db.blocks) 0) [
  | yes e ↦ (ground arith, λ x l u. (skip_blocks-none t db.blocks e pos x l, ground arith))
  | no n ↦
      let g = skip_blocks-gap t db.blocks asc n in
      (
        ground (arith, g),
        λ x l u. (
          g.1 x l (ground arith),
          ground (arith, skip_blocks-le t db.head_min_time db.blocks asc below),
        ),
      )
]
