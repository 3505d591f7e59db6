-- ===== src/Gpt/Table.antt =====
-- src/fs/gpt.rs: the entries of the table, the selection from them, and a block of the scan.
use crab_efi.Prelude.{
  ℕ, zero, suc, ◌+◌, ◌*◌, ◌≤◌, ◌<◌, ◌&&◌, List, [], ◌∷◌, ◌++◌, ◌≡◌, refl, leb, if◌then◌else◌,
  length, arith, Bool-cases, inl, inr, ap, ◌∙◌,
}
use crab_efi.Bytes.{byte}
use crab_efi.Gpt.{
  GptHeader, GptPartitionEntry, entry_at, is_empty, Partition, min_block_size, entry_bytes,
  max_block_size,
}
use crab_efi.Gpt.Scan.{
  Progress, Step, stop, go_on, take_entry, scan_block, max_partitions, partition_of, has_some,
}
use crab_efi.Gpt.Ending.{step-cases}
use crab_efi.Bytes.Agree.{bytes_at-agree, le64-agree}

-- The entries of the table, from an address on.
unfoldable pub table_entries : (ℕ → ℕ) → ℕ → ℕ → List GptPartitionEntry
table_entries content addr zero = []
table_entries content addr (suc n) = entry_at content addr ∷ table_entries content (addr + 128) n

-- The partitions of a list of entries, behind those that were found and so many empty entries: a
-- partition for each entry that is not empty, up to the seventeenth of them, or up to eight empty
-- ones in a row behind a partition.
unfoldable pub select : List GptPartitionEntry → ℕ → List Partition → List Partition
select [] empties ps = ps
select (e ∷ es) empties ps =
    let on = select es (empties + 1) ps in
    let more = select es 0 (ps ++ (partition_of 512 e ∷ [])) in
    if is_empty e
    then (if leb 8 (empties + 1) && has_some ps then ps else on)
    else if leb max_partitions (length ps)
    then ps
    else more

entry_at-agree :
    (at at' : ℕ → ℕ) (p q : ℕ)
    → ((i : ℕ) → i < 128 → at (p + i) ≡ at' (q + i))
    → entry_at at p ≡ entry_at at' q
unfolding entry_at
entry_at-agree at at' p q agree =
    let type_guid =
      bytes_at-agree at at' p q 128 agree 16 0 p q (omega arith) (omega arith) (omega arith) in
    let partition_guid =
      bytes_at-agree at at' p q 128 agree 16 16 (p + 16) (q + 16) refl refl (omega arith) in
    let first = le64-agree at at' p q 128 agree 32 (p + 32) (q + 32) refl refl (omega arith) in
    let last = le64-agree at at' p q 128 agree 40 (p + 40) (q + 40) refl refl (omega arith) in
    let attributes = le64-agree at at' p q 128 agree 48 (p + 48) (q + 48) refl refl (omega arith) in
    λ j. record {
      type_guid = type_guid j;
      partition_guid = partition_guid j;
      first_lba = first j;
      last_lba = last j;
      attributes = attributes j;
    }

-- One step of the scan is one step of the selection.
abbrev Stepped : ℕ → Progress → GptPartitionEntry → Step → Type 0
Stepped size s e (stop ps) =
    (es : List GptPartitionEntry) → select (e ∷ es) s.consecutive_empty s.partitions ≡ ps
Stepped size s e (go_on s') =
    (s'.entry_index ≡ s.entry_index + 1)
    × (s'.bytes_read ≡ s.bytes_read + size)
    × ((es : List GptPartitionEntry)
        → select (e ∷ es) s.consecutive_empty s.partitions
          ≡ select es s'.consecutive_empty s'.partitions)

take_entry-Stepped :
    (size : ℕ) (s : Progress) (e : GptPartitionEntry)
    → Stepped size s e (take_entry min_block_size size s e)
unfolding take_entry select
take_entry-Stepped size s e = elim (Bool-cases (is_empty e)) [
  | inl empty ↦ elim (Bool-cases (leb 8 (s.consecutive_empty + 1) && has_some s.partitions)) [
    | inl eight ↦ rw (empty, eight) (λ es. rw (empty, eight) refl)
    | inr few ↦ rw (empty, few) (refl, refl, λ es. rw (empty, few) refl)
  ]
  | inr used ↦ elim (Bool-cases (leb max_partitions (length s.partitions))) [
    | inl full ↦ rw (used, full) (λ es. rw (used, full) refl)
    | inr room ↦ rw (used, room) (refl, refl, λ es. rw (used, room) refl)
  ]
]

module _ (content : ℕ → ℕ) (h : GptHeader) (usual : h.partition_entry_size ≡ 128) (block : List ℕ)
    (blk : ℕ) (held : (i : ℕ) → i < 512 → byte block i ≡ content (blk + i)) where
  -- What is left to be selected at a point of the scan.
  abbrev pub left_at : ℕ → ℕ → Progress → List Partition
  left_at addr left s = select (table_entries content addr left) s.consecutive_empty s.partitions

  -- The scan of a block agrees with the selection: it has gone over `k` entries, and `n` are left.
  abbrev pub Agrees : ℕ → ℕ → Progress → Step → Type 0
  Agrees pos left s (stop ps) = left_at (blk + pos) left s ≡ ps
  Agrees pos left s (go_on s') =
      (k : ℕ) × (n : ℕ) × (k + n ≡ left)
      × (s'.entry_index ≡ s.entry_index + k)
      × (s'.bytes_read ≡ s.bytes_read + 128 * k)
      × (left_at (blk + pos) left s ≡ left_at (blk + pos + 128 * k) n s')
      × (0 < left → pos + 128 ≤ 512 → 0 < k)

  -- The entry in the block is that of the table.
  entry_at-block :
      (pos : ℕ) → pos + 128 ≤ 512 → entry_at (byte block) pos ≡ entry_at content (blk + pos)
  entry_at-block pos fits =
      entry_at-agree (byte block) content pos (blk + pos)
        (λ i below. held (pos + i) (omega (arith, fits, below)) ∙ ap content (omega arith))

  -- A step, then the rest of the block.
  Agrees-step :
      (pos after left : ℕ) (s s' : Progress) (r : Step)
      → after ≡ pos + 128
      → Stepped h.partition_entry_size s (entry_at content (blk + pos)) (go_on s')
      → Agrees after left s' r
      → Agrees pos (suc left) s r
  unfolding table_entries
  Agrees-step pos after left s s' (stop ps) next step rest =
      let here : blk + pos + 128 ≡ blk + after = omega (arith, next) in
      step.2 (table_entries content (blk + pos + 128) left)
      ∙ ap (λ a. select (table_entries content a left) s'.consecutive_empty s'.partitions) here
      ∙ rest
  Agrees-step pos after left s s' (go_on s'') next step (k, n, sum, index, bytes, on, far) =
      let here : blk + pos + 128 ≡ blk + after = omega (arith, next) in
      let there : blk + after + 128 * k ≡ blk + pos + 128 * suc k = omega (arith, next) in
      (
        suc k,
        n,
        omega (arith, sum),
        omega (arith, index, step.0),
        omega (arith, bytes, step.1, usual),
        step.2 (table_entries content (blk + pos + 128) left)
            ∙ ap (λ a. select (table_entries content a left) s'.consecutive_empty s'.partitions)
                here
            ∙ on
            ∙ ap (λ a. left_at a n s'') there,
        λ a b. omega arith,
      )

  pub scan_block-Agrees :
      (left pos : ℕ) (s : Progress)
      → Agrees pos left s (scan_block left h min_block_size (byte block) pos s)
  unfolding scan_block table_entries
  scan_block-Agrees zero pos s =
      (0, 0, refl, omega arith, omega arith, refl, (λ a b. absurd (omega (arith, a))))
  scan_block-Agrees (suc left) pos s =
      elim (Bool-cases (
        leb (pos + h.partition_entry_size) min_block_size
        && leb (pos + entry_bytes) max_block_size)) [
          | inl fits ↦
              let same = entry_at-block pos (ground (arith, fits, usual)) in
              let step =
                take_entry-Stepped h.partition_entry_size s (entry_at content (blk + pos)) in
              rw (fits, same)
                (elim (step-cases (
                  take_entry min_block_size h.partition_entry_size s
                    (entry_at content (blk + pos)))) [
                      | inl (ps, e) ↦
                          rw e ((rw e at step) (table_entries content (blk + pos + 128) left))
                      | inr (s', e) ↦ rw e (
                          Agrees-step pos (pos + h.partition_entry_size) left s s' _
                            (omega (arith, usual)) (rw e at step)
                            (scan_block-Agrees left (pos + h.partition_entry_size) s'))
                    ])
          | inr over ↦ rw over (
            0,
            suc left,
            omega arith,
            omega arith,
            omega arith,
            ap (λ a. left_at a (suc left) s) (omega arith),
            λ a b. absurd (ground (arith, over, usual, b)),
          )
        ]
